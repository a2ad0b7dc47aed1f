-- ===== src/Ssid/Truncated.antt =====
-- `truncate_to_width` of libnetwork-daemon/src/utils/ssid.rs. The widths of texts and characters come from
-- the crate `unicode_width`, and are parameters.
use network_daemon.Prelude.{
  ℕ, ◌+◌, ◌-◌, ◌≤◌, ◌≡◌, ltb, leb, List, [], ◌∷◌, ◌++◌, if◌then◌else◌, arith,
}

module _ (char_width : ℕ → ℕ) where
  -- The widths of the characters of a text, added up.
  abbrev pub total_width : List ℕ → ℕ
  total_width [] = 0
  total_width (c ∷ s) = char_width c + total_width s

  total_width-append : (s t : List ℕ) → total_width (s ++ t) ≡ total_width s + total_width t
  total_width-append [] t = omega arith
  total_width-append (c ∷ s) t = ground (arith, total_width-append s t)

module _ (width : List ℕ → ℕ) (char_width : ℕ → ℕ) where
  -- The loop over the characters, with `unwrap_or(1)` in `char_width`.
  unfoldable pub take_width : ℕ → ℕ → List ℕ → List ℕ
  take_width target_width current_width [] = []
  take_width target_width current_width (c ∷ s) =
      let rest = take_width target_width (current_width + char_width c) s in
      if ltb target_width (current_width + char_width c) then [] else c ∷ rest

  unfoldable pub truncate_to_width : List ℕ → ℕ → List ℕ
  unfolding take_width
  truncate_to_width s max_width =
      if ltb max_width 3
      then []
      else if leb (width s) max_width
      then s
      else take_width (max_width - 3) 0 s ++ b'.' ∷ b'.' ∷ b'.' ∷ []

  take_width_bound :
      (target current : ℕ) (s : List ℕ)
      → current ≤ target
      → current + total_width char_width (take_width target current s) ≤ target
  unfolding take_width
  take_width_bound target current [] h = omega arith
  take_width_bound target current (c ∷ s) h =
      ground (arith, take_width_bound target (current + char_width c) s)

  -- If the text is no narrower than its characters together, and a dot has the width 1, then the
  -- truncated text fits into the given width.
  truncate_to_width_fits :
      (s : List ℕ) (max_width : ℕ)
      → total_width char_width s ≤ width s
      → char_width b'.' ≡ 1
      → total_width char_width (truncate_to_width s max_width) ≤ max_width
  unfolding truncate_to_width
  truncate_to_width_fits s max_width wide dot = ground (
    arith,
    wide,
    dot,
    take_width_bound (max_width - 3) 0 s,
    total_width-append char_width (take_width (max_width - 3) 0 s) (b'.' ∷ b'.' ∷ b'.' ∷ []),
  )

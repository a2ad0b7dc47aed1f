-- ===== src/Prelude/Search.antt =====
-- The searches of `str`, on the numbers of characters.
use Prim.Native.Nat.{ℕ}
use Prim.Native.Char.{code}
use Prim.Native.String.{String}
use mathlib.Core.Bool.{Bool, true, false, ◌&&◌, ◌||◌}
use mathlib.Core.List.{List, [], ◌∷◌}
use mathlib.Core.Option.{Option, none, some}
use network_daemon.Prelude.Tests.{◌==◌, if◌then◌else◌}
use network_daemon.Prelude.Text.{is_whitespace, trim_start}

-- The characters of a text.
abbrev pub codes : String → List ℕ
codes String.[] = []
codes (String.◌∷◌ c s) = code c ∷ codes s

unfoldable pub same_text : List ℕ → List ℕ → Bool
same_text [] [] = true
same_text [] (d ∷ t) = false
same_text (c ∷ s) [] = false
same_text (c ∷ s) (d ∷ t) = c == d && same_text s t

unfoldable pub strip_prefix : List ℕ → List ℕ → Option (List ℕ)
strip_prefix [] s = some s
strip_prefix (c ∷ p) [] = none
strip_prefix (c ∷ p) (d ∷ s) = let rest = strip_prefix p s in if c == d then rest else none

unfoldable pub starts_with : List ℕ → List ℕ → Bool
unfolding strip_prefix
starts_with p s = elim (strip_prefix p s) [ none ↦ false | some _ ↦ true ]

unfoldable pub contains : List ℕ → List ℕ → Bool
unfolding starts_with
contains p [] = starts_with p []
contains p (c ∷ s) = starts_with p (c ∷ s) || contains p s

-- What follows the first occurrence.
unfoldable pub after : List ℕ → List ℕ → Option (List ℕ)
unfolding strip_prefix
after p [] = strip_prefix p []
after p (c ∷ s) =
    let rest = after p s in elim (strip_prefix p (c ∷ s)) [ none ↦ rest | some t ↦ some t ]

-- What stands before the first occurrence.
unfoldable pub before : List ℕ → List ℕ → List ℕ
unfolding starts_with
before p [] = []
before p (c ∷ s) = let rest = before p s in if starts_with p (c ∷ s) then [] else c ∷ rest

-- `split(p).nth(1)`: what stands between the first two occurrences.
unfoldable pub second_part : List ℕ → List ℕ → Option (List ℕ)
unfolding after before
second_part p s = elim (after p s) [ none ↦ none | some t ↦ some (before p t) ]

-- A character before the first part.
abbrev pub prepend : ℕ → List (List ℕ) → List (List ℕ)
prepend c [] = (c ∷ []) ∷ []
prepend c (part ∷ parts) = (c ∷ part) ∷ parts

-- `split` at a character.
unfoldable pub split : ℕ → List ℕ → List (List ℕ)
split sep [] = [] ∷ []
split sep (c ∷ s) = let rest = split sep s in if c == sep then [] ∷ rest else prepend c rest

unfoldable pub split_once : ℕ → List ℕ → Option (List ℕ × List ℕ)
split_once sep [] = none
split_once sep (c ∷ s) =
    let rest = split_once sep s in
    if c == sep
    then some ([], s)
    else elim rest [ none ↦ none | some (before, behind) ↦ some (c ∷ before, behind) ]

-- The characters before the first blank.
unfoldable pub word : List ℕ → List ℕ
unfolding is_whitespace
word [] = []
word (c ∷ s) = let rest = word s in if is_whitespace c then [] else c ∷ rest

-- `split_whitespace().next()`.
unfoldable pub first_word : List ℕ → Option (List ℕ)
unfolding trim_start word
first_word s = elim (word (trim_start s)) [ [] ↦ none | c ∷ w ↦ some (c ∷ w) ]

-- A line without the carriage return at its end.
unfoldable pub chomp : List ℕ → List ℕ
chomp [] = []
chomp (c ∷ []) = if c == b'\r' then [] else c ∷ []
chomp (c ∷ d ∷ s) = c ∷ chomp (d ∷ s)

-- The parts between newlines; what follows the last newline is a line only if it is not empty.
unfoldable pub lines_of : List (List ℕ) → List (List ℕ)
unfolding chomp
lines_of [] = []
lines_of ([] ∷ []) = []
lines_of ((c ∷ s) ∷ []) = (c ∷ s) ∷ []
lines_of (s ∷ t ∷ parts) = chomp s ∷ lines_of (t ∷ parts)

-- `str::lines`.
unfoldable pub lines : List ℕ → List (List ℕ)
unfolding split lines_of
lines s = lines_of (split b'\n' s)

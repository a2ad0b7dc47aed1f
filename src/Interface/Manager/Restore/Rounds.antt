-- ===== src/Interface/Manager/Restore/Rounds.antt =====
-- The loop of `create_configured_links` in network-daemon/src/interface/mod.rs ends, and what it leaves
-- undone cannot be done.
use Prim.Native.String.{String}
use network_daemon.Prelude.{
  ℕ, zero, suc, ◌+◌, ◌<◌, ◌≤◌, ◌≡◌, ◌≢◌, refl, sym, none, some, List, [], ◌∷◌, Bool, true, false,
  ◌||◌, not, if◌then◌else◌, ok, err, string_key, length, arith, Bool-cases, inl, inr, In, ◌⊎◌,
  Result-cases,
}
use mathlib.Core.Path.{subst}
use network_daemon.Prelude.Set
use network_daemon.Interface.Link.{LinkOptions}
use network_daemon.Interface.Machine.{Machine}
use network_daemon.Interface.Manager.Restore.{create_pass, create_links}

module _ (m : Machine) where
  -- A pass defers at most the links that were pending, and fewer if it created one.
  deferred-create_pass :
      (pending : List (String × LinkOptions)) (names : List String) (s : m.State)
      → let pass = (create_pass m pending names s).0 in
        length pass.deferred + (if pass.progress then 1 else 0) ≤ length pending
  unfolding create_pass
  deferred-create_pass [] names s = omega arith
  deferred-create_pass ((name, options) ∷ pending) names s =
      let (r, s') = m.create_link name options s in
      ground (
        arith,
        deferred-create_pass pending names s,
        deferred-create_pass pending (Set.insert name names) s',
        deferred-create_pass pending names s',
      )

  -- The loop gives a result with fuel above the number of pending links.
  pub create_links_returns :
      (fuel : ℕ) (pending : List (String × LinkOptions)) (names : List String) (created : Bool)
      (s : m.State)
      → length pending < fuel
      → create_links m fuel pending names created s ≢ none
  unfolding create_links
  create_links_returns zero pending names created s h = absurd (omega arith)
  create_links_returns (suc fuel) pending names created s h =
      let (pass, s') = create_pass m pending names s in
      let created' = created || pass.progress in
      ground (
        arith,
        deferred-create_pass pending names s,
        create_links_returns fuel pass.deferred pass.names created' s',
      )

-- What a machine does on a request for a link: a link that is created is there and stays, and a
-- request that is refused changes nothing.
pub record Creates (m : Machine) (Present : String → m.State → Bool) : Type 0 where
  pub created :
      (name : String) (options : LinkOptions) (s : m.State) (u : Unit)
      → (m.create_link name options s).0 ≡ ok u
      → Present name (m.create_link name options s).1 ≡ true
  pub stays :
      (n name : String) (options : LinkOptions) (s : m.State)
      → Present n s ≡ true
      → Present n (m.create_link name options s).1 ≡ true
  pub refused :
      (name : String) (options : LinkOptions) (s : m.State) (e : m.IfconfigError)
      → (m.create_link name options s).0 ≡ err e
      → (m.create_link name options s).1 ≡ s

module _ (m : Machine) (Present : String → m.State → Bool) (laws : Creates m Present) where
  stays-create_pass :
      (n : String) (pending : List (String × LinkOptions)) (names : List String) (s : m.State)
      → Present n s ≡ true
      → Present n (create_pass m pending names s).1 ≡ true
  unfolding create_pass
  stays-create_pass n [] names s h = h
  stays-create_pass n ((name, options) ∷ pending) names s h =
      let s' = (m.create_link name options s).1 in
      ground (
        arith,
        laws.stays n name options s h,
        stays-create_pass n pending names s,
        stays-create_pass n pending (Set.insert name names) s',
        stays-create_pass n pending names s',
      )

  abbrev AllPresent : List String → m.State → Type 0
  AllPresent names s = (n : String) → Set.contains n names ≡ true → Present n s ≡ true

  AllPresent-insert :
      (name : String) (options : LinkOptions) (names : List String) (s : m.State) (u : Unit)
      → AllPresent names s
      → (m.create_link name options s).0 ≡ ok u
      → AllPresent (Set.insert name names) (m.create_link name options s).1
  AllPresent-insert name options names s u h e n inside = ground (
    arith,
    Set.contains-insert n name names,
    laws.created name options s u e,
    laws.stays n name options s,
    h n,
  )

  -- After a pass every link that was pending is there or deferred.
  settled-create_pass :
      (name : String) (options : LinkOptions) (pending : List (String × LinkOptions))
      (names : List String) (s : m.State)
      → AllPresent names s
      → In (name, options) pending
      → let (pass, s') = create_pass m pending names s in
        (Present name s' ≡ true) ⊎ In (name, options) pass.deferred
  unfolding create_pass
  settled-create_pass n o [] names s h i = elim i [ ]
  settled-create_pass n o ((name, options) ∷ pending) names s h i =
      let s' = (m.create_link name options s).1 in
      elim (Bool-cases (Set.contains name names)) [
        | inl old ↦ rw (old) (elim i [
          | inl p ↦ inl (stays-create_pass n pending names s (ground (arith, h name old)))
          | inr later ↦ settled-create_pass n o pending names s h later
        ])
        | inr new ↦ elim (Result-cases (m.create_link name options s).0) [
          | inl (u, e) ↦
              rw (new, e)
                (elim i [
                  | inl p ↦ inl (
                      stays-create_pass n pending (Set.insert name names) s'
                        (ground (arith, laws.created name options s u e)))
                  | inr later ↦
                      settled-create_pass n o pending (Set.insert name names) s'
                        (AllPresent-insert name options names s u h e) later
                ])
          | inr (f, e) ↦
              rw (new, e)
                (elim i [
                  | inl p ↦ inr (inl p)
                  | inr later ↦
                      elim (settled-create_pass n o pending names s'
                        (λ k inside. laws.stays k name options s (h k inside)) later) [
                          | inl there ↦ inl there
                          | inr deferred ↦ inr (inr deferred)
                        ]
                ])
        ]
      ]

  -- The names that a pass leaves are there.
  AllPresent-create_pass :
      (pending : List (String × LinkOptions)) (names : List String) (s : m.State)
      → AllPresent names s
      → AllPresent (create_pass m pending names s).0.names (create_pass m pending names s).1
  unfolding create_pass
  AllPresent-create_pass [] names s h = h
  AllPresent-create_pass ((name, options) ∷ pending) names s h =
      let s' = (m.create_link name options s).1 in
      elim (Bool-cases (Set.contains name names)) [
        | inl old ↦ rw old (AllPresent-create_pass pending names s h)
        | inr new ↦ elim (Result-cases (m.create_link name options s).0) [
          | inl (u, e) ↦
              rw (new, e)
                (AllPresent-create_pass pending (Set.insert name names) s'
                  (AllPresent-insert name options names s u h e))
          | inr (f, e) ↦
              rw (new, e)
                (AllPresent-create_pass pending names s'
                  (λ k inside. laws.stays k name options s (h k inside)))
        ]
      ]

  -- Whether a request for the link is refused.
  abbrev Refused : String → LinkOptions → m.State → Type 0
  Refused name options s = (e : m.IfconfigError) × ((m.create_link name options s).0 ≡ err e)

  -- A pass that creates nothing changes nothing, and what it defers is refused.
  idle-create_pass :
      (pending : List (String × LinkOptions)) (names : List String) (s : m.State)
      → (create_pass m pending names s).0.progress ≡ false
      → ((create_pass m pending names s).1 ≡ s)
        × ((name : String) (options : LinkOptions)
            → In (name, options) (create_pass m pending names s).0.deferred
            → Refused name options s)
  unfolding create_pass
  idle-create_pass [] names s idle = (refl, λ n o i. elim i [ ])
  idle-create_pass ((name, options) ∷ pending) names s idle =
      elim (Bool-cases (Set.contains name names)) [
        | inl old ↦ rw old (idle-create_pass pending names s (rw (old, create_pass) at idle))
        | inr new ↦ elim (Result-cases (m.create_link name options s).0) [
          | inl (u, e) ↦ absurd (ground (arith, idle, new, e))
          | inr (f, e) ↦
              let same = laws.refused name options s f e in
              let (rest, refused) =
                idle-create_pass pending names s (rw (new, e, same, create_pass) at idle) in
              rw (new, e, same)
                (
                  rest,
                  λ n o i. elim i [
                    | inl p ↦ (f, ground (arith, p, e))
                    | inr later ↦ refused n o later
                  ],
                )
        ]
      ]

  -- The loop over links keeps what is there.
  stays-create_links :
      (n : String) (fuel : ℕ) (pending : List (String × LinkOptions)) (names : List String)
      (created : Bool) (s : m.State) (r : Bool × m.State)
      → create_links m fuel pending names created s ≡ some r
      → Present n s ≡ true
      → Present n r.1 ≡ true
  unfolding create_links
  stays-create_links n zero pending names created s r run h = absurd cc
  stays-create_links n (suc fuel) pending names created s r run h =
      let (pass, s') = create_pass m pending names s in
      ground (
        arith,
        run,
        stays-create_pass n pending names s h,
        stays-create_links n fuel pass.deferred pass.names (created || pass.progress) s' r,
      )

  In-is_empty : {A : Type 0} (x : A) (l : List A) → In x l → Set.is_empty l ≡ true → ⊥
  unfolding Set.is_empty
  In-is_empty x [] i e = elim i [ ]
  In-is_empty x (y ∷ l) i e = cc

  -- What a last pass deferred is refused after it.
  last_pass-Refused :
      (name : String) (options : LinkOptions) (pending : List (String × LinkOptions))
      (names : List String) (s : m.State)
      → let (pass, s') = create_pass m pending names s in
        In (name, options) pass.deferred
        → Set.is_empty pass.deferred || not pass.progress ≡ true
        → Refused name options s'
  last_pass-Refused n o pending names s i stop =
      let (pass, s') = create_pass m pending names s in
      elim (Bool-cases pass.progress) [
        | inl some_created ↦ absurd (In-is_empty (n, o) pass.deferred i (ground arith))
        | inr idle ↦
            let (same, refused) = idle-create_pass pending names s idle in
            subst (Refused n o) (sym same) (refused n o i)
      ]

  -- When the loop ends, each link that was pending is there, or a request for it would still be refused.
  pub create_links_complete :
      (name : String) (options : LinkOptions) (fuel : ℕ) (pending : List (String × LinkOptions))
      (names : List String) (created : Bool) (s : m.State) (r : Bool × m.State)
      → create_links m fuel pending names created s ≡ some r
      → ((n : String) → Set.contains n names ≡ true → Present n s ≡ true)
      → In (name, options) pending
      → (Present name r.1 ≡ true)
        ⊎ ((e : m.IfconfigError) × ((m.create_link name options r.1).0 ≡ err e))
  unfolding create_links
  create_links_complete n o zero pending names created s r run h i = absurd cc
  create_links_complete n o (suc fuel) pending names created s r run h i =
      let (pass, s') = create_pass m pending names s in
      let created' = created || pass.progress in
      let kept = AllPresent-create_pass pending names s h in
      let settled = settled-create_pass n o pending names s h i in
      elim (Bool-cases (Set.is_empty pass.deferred || not pass.progress)) [
        | inl stop ↦
            let last : s' ≡ r.1 = ground (arith, run, stop) in
            elim settled [
              | inl there ↦ inl (subst (λ q. Present n q ≡ true) last there)
              | inr deferred ↦
                  inr
                    (subst (Refused n o) last (last_pass-Refused n o pending names s deferred stop))
            ]
        | inr more ↦
            let next : create_links m fuel pass.deferred pass.names created' s' ≡ some r =
              ground (arith, run, more) in
            elim settled [
              | inl there ↦
                  inl (stays-create_links n fuel pass.deferred pass.names created' s' r next there)
              | inr deferred ↦
                  create_links_complete n o fuel pass.deferred pass.names created' s' r next kept
                    deferred
            ]
      ]

-- ===== src/Interface/Manager/Keeps.antt =====
-- What a method of network-daemon/src/interface/mod.rs keeps true of the actor, on success and on error.
use network_daemon.Prelude.{◌≡◌, sym, ◌∙◌, Result, ok, inl, inr, Result-cases, arith}
use mathlib.Core.Path.{subst}
use network_daemon.Interface.Manager.{InterfaceManager, Action, ◌>>=◌, ◌>>◌, lift}

module _ {S E : Type 0} where
  -- A method that only calls the machine leaves the actor as it is.
  abbrev pub Still : {A : Type 0} → Action S E A → Type 0
  Still f = (self : InterfaceManager) (s : S) → (f self s).1 ≡ self

  pub then-Still :
      {A B : Type 0} (f : Action S E A) (g : Action S E B) → Still f → Still g → Still (f >> g)
  then-Still f g sf sg self s = elim (Result-cases (f self s).0) [
    | inl (a, e) ↦ rw (e, ◌>>=◌) (sg (f self s).1 (f self s).2 ∙ sf self s)
    | inr (x, e) ↦ rw (e, ◌>>=◌) (sf self s)
  ]

  -- A chain that succeeds is a success of its first method, and of the rest after it.
  pub >>=-ok :
      {A B : Type 0} (f : Action S E A) (k : A → Action S E B) (self : InterfaceManager) (s : S)
      (b : B)
      → ((f >>= k) self s).0 ≡ ok b
      → (a : A) × ((f self s).0 ≡ ok a) × ((k a (f self s).1 (f self s).2).0 ≡ ok b)
  >>=-ok f k self s b h = elim (Result-cases (f self s).0) [
    | inl (a, e) ↦ (a, e, ground (arith, h, e))
    | inr (x, e) ↦ absurd (ground (arith, h, e))
  ]

module _ {S E : Type 0} (I : InterfaceManager → Type 0) where
  abbrev pub Keeps : {A : Type 0} → Action S E A → Type 0
  Keeps f = (self : InterfaceManager) (s : S) → I self → I (f self s).1

  pub Still-Keeps : {A : Type 0} (f : Action S E A) → Still f → Keeps f
  Still-Keeps f still self s h = subst I (sym (still self s)) h

  pub bind-Keeps :
      {A B : Type 0} (f : Action S E A) (k : A → Action S E B)
      → Keeps f
      → ((a : A) → Keeps (k a))
      → Keeps (f >>= k)
  bind-Keeps f k kf kk self s h = elim (Result-cases (f self s).0) [
    | inl (a, e) ↦ rw (e, ◌>>=◌) (kk a (f self s).1 (f self s).2 (kf self s h))
    | inr (x, e) ↦ rw (e, ◌>>=◌) (kf self s h)
  ]

  pub then-Keeps :
      {A B : Type 0} (f : Action S E A) (g : Action S E B) → Keeps f → Keeps g → Keeps (f >> g)
  then-Keeps f g kf kg = bind-Keeps f (λ _. g) kf (λ _. kg)

  pub lift-Keeps :
      {A F : Type 0} (convert : F → E) (call : S → Result F A × S) → Keeps (lift convert call)
  lift-Keeps convert call self s h = elim (Result-cases (call s).0) [
    | inl (a, e) ↦ rw (e, lift) h
    | inr (x, e) ↦ rw (e, lift) h
  ]

  -- A call of the machine, followed by a method that is known at the present actor alone.
  pub lift-then :
      {A B F : Type 0} (convert : F → E) (call : S → Result F A × S) (g : Action S E B)
      (self : InterfaceManager) (s : S)
      → I self
      → ((s' : S) → I (g self s').1)
      → I ((lift convert call >> g) self s).1
  lift-then convert call g self s h k =
      let called = lift convert call self s in
      let still : called.1 ≡ self = ground arith in
      elim (Result-cases called.0) [
        | inl (a, e) ↦
            rw (e, ◌>>◌, ◌>>=◌) (subst (λ q. I (g q called.2).1) (sym still) (k called.2))
        | inr (x, e) ↦ rw (e, ◌>>◌, ◌>>=◌) (subst I (sym still) h)
      ]

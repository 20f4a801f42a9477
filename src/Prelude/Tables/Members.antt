-- ===== src/Prelude/Tables/Members.antt =====
-- The entries of a vector that is searched by a key.
use mathlib.Core.Path.{◌≡◌, refl}
use mathlib.Core.Logic.{inl, inr}
use mathlib.Core.Option.{some}
use mathlib.Core.List.{List, [], ◌∷◌}
use vestirust.Prelude.Tests.{Bool-cases}
use vestirust.Prelude.Lists.{In, find}
use vestirust.Prelude.Tables.{Keyed, find_key, IsUnique}

module _ {A K : Type 0} (t : Keyed A K) where
  -- What is found is an entry, and has the key.
  pub find_key-In : (k : K) (a : A) (l : List A) → find_key t k l ≡ some a → In a l × (t.key a ≡ k)
  unfolding find
  find_key-In k a [] h = cc
  find_key-In k a (x ∷ l) h = elim (Bool-cases (t.beq (t.key x) k)) [
    | inl same ↦ let is : x ≡ a = cc (rw same at h) in (inl is, rw (← is) ((t.beq_iff _ _).0 same))
    | inr other ↦ let (m, e) = find_key-In k a l (rw other at h) in (inr m, e)
  ]

  -- Where the keys are unique, each entry is found under its key.
  pub In-find_key : (a : A) (l : List A) → IsUnique t l → In a l → find_key t (t.key a) l ≡ some a
  unfolding find
  In-find_key a [] u m = absurd m
  In-find_key a (x ∷ l) (new, u) (inl is) =
      rw (← is) (rw ((t.beq_iff (t.key x) (t.key x)).1 refl) refl)
  In-find_key a (x ∷ l) (new, u) (inr m) = elim (Bool-cases (t.beq (t.key x) (t.key a))) [
    | inl same ↦
        let found = In-find_key a l u m in
        let key : t.key x ≡ t.key a = (t.beq_iff _ _).0 same in cc
    | inr other ↦ rw other (In-find_key a l u m)
  ]

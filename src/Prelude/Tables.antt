-- ===== src/Prelude/Tables.antt =====
-- A vector searched by a key: what the admin handlers do to the vectors of the configuration.
pub mod Members
use Prim.Native.Nat.{ℕ, suc}
use mathlib.Core.Path.{◌≡◌, refl, sym, ◌∙◌, ap}
use mathlib.Core.Logic.{◌↔◌, inl, inr}
use mathlib.Core.Bool.{Bool, true, false}
use mathlib.Core.Option
use mathlib.Core.Option.{Option, none, some}
use mathlib.Core.List.{List, [], ◌∷◌, ◌++◌}
use native.Mathlib.Omega.{arith}
use vestirust.Prelude.Tests.{if◌then◌else◌, Bool-cases, Option-cases}
use vestirust.Prelude.Lists.{find, position, remove, write_found}

-- The key of an entry, with its test for equality.
pub record Keyed (A K : Type 0) : Type 0 where
  pub key : A → K
  pub beq : K → K → Bool
  pub beq_iff : (j k : K) → (beq j k ≡ true) ↔ (j ≡ k)

module _ {A K : Type 0} (t : Keyed A K) where
  -- `|a| a.key == k`
  abbrev pub has_key : K → A → Bool
  has_key k a = t.beq (t.key a) k

  abbrev pub find_key : K → List A → Option A
  find_key k l = find (has_key k) l

  -- overwrite the entry that has the payload's key, or push the payload
  unfoldable pub replace_or_push : A → List A → List A
  unfolding find write_found
  replace_or_push payload l = elim (find (has_key (t.key payload)) l) [
    | some old ↦ write_found (has_key (t.key payload)) payload l
    | none ↦ l ++ payload ∷ []
  ]

  -- remove the first entry that has the key, if there is one
  unfoldable pub remove_found : K → List A → Option (List A)
  unfolding position remove
  remove_found k l = Option.map (λ pos. remove pos l) (position (has_key k) l)

  -- No two entries have the same key.
  abbrev pub IsUnique : List A → Type 0
  IsUnique [] = Unit
  IsUnique (a ∷ l) = (find_key (t.key a) l ≡ none) × IsUnique l

module _ {A K : Type 0} (t : Keyed A K) where
  beq_self : (k : K) → t.beq k k ≡ true
  beq_self k = (t.beq_iff k k).1 refl

  find-append-push :
      (k : K) (a : A) (l : List A)
      → find_key t (t.key a) l ≡ none
      → find_key t k (l ++ a ∷ []) ≡ (if t.beq (t.key a) k then some a else find_key t k l)
  unfolding find
  find-append-push k a [] h = refl
  find-append-push k a (x ∷ l) h = ground (
    arith,
    find-append-push k a l,
    t.beq_iff (t.key x) k,
    t.beq_iff (t.key a) k,
    t.beq_iff (t.key x) (t.key a),
  )

  find-write_found :
      (k : K) (a old : A) (l : List A)
      → find_key t (t.key a) l ≡ some old
      → find_key t k (write_found (has_key t (t.key a)) a l)
        ≡ (if t.beq (t.key a) k then some a else find_key t k l)
  unfolding find write_found
  find-write_found k a old [] h = cc
  find-write_found k a old (x ∷ l) h = ground (
    arith,
    find-write_found k a old l,
    t.beq_iff (t.key x) k,
    t.beq_iff (t.key a) k,
    t.beq_iff (t.key x) (t.key a),
  )

  pub find-replace_or_push :
      (k : K) (a : A) (l : List A)
      → find_key t k (replace_or_push t a l)
        ≡ (if t.beq (t.key a) k then some a else find_key t k l)
  unfolding replace_or_push find
  find-replace_or_push k a l = elim (Option-cases (find_key t (t.key a) l)) [
    | inl new ↦ rw (new, replace_or_push) (find-append-push k a l new)
    | inr (old, found) ↦ rw (found, replace_or_push) (find-write_found k a old l found)
  ]

  IsUnique-append-push :
      (a : A) (l : List A) → find_key t (t.key a) l ≡ none → IsUnique t l → IsUnique t (l ++ a ∷ [])
  unfolding find
  IsUnique-append-push a [] h u = (refl, tt)
  IsUnique-append-push a (x ∷ l) h (new, u) =
      let rest : find_key t (t.key a) l ≡ none = ground arith in
      (
        find-append-push (t.key x) a l rest
            ∙ ground (arith, t.beq_iff (t.key x) (t.key a), t.beq_iff (t.key a) (t.key x)),
        IsUnique-append-push a l rest u,
      )

  IsUnique-write_found :
      (a old : A) (l : List A)
      → find_key t (t.key a) l ≡ some old
      → IsUnique t l
      → IsUnique t (write_found (has_key t (t.key a)) a l)
  unfolding find write_found
  IsUnique-write_found a old [] h u = tt
  IsUnique-write_found a old (x ∷ l) h (new, u) = elim (Bool-cases (t.beq (t.key x) (t.key a))) [
    | inl same ↦ rw same (rw ((t.beq_iff _ _).0 same) at new, u)
    | inr other ↦
        let rest : find_key t (t.key a) l ≡ some old = ground arith in
        rw other (
          find-write_found (t.key x) a old l rest
              ∙ ground (arith, t.beq_iff (t.key x) (t.key a), t.beq_iff (t.key a) (t.key x)),
          IsUnique-write_found a old l rest u,
        )
  ]

  pub replace_or_push-IsUnique :
      (a : A) (l : List A) → IsUnique t l → IsUnique t (replace_or_push t a l)
  unfolding replace_or_push find
  replace_or_push-IsUnique a l u = elim (Option-cases (find_key t (t.key a) l)) [
    | inl new ↦ rw (new, replace_or_push) (IsUnique-append-push a l new u)
    | inr (old, found) ↦ rw (found, replace_or_push) (IsUnique-write_found a old l found u)
  ]

  -- Removal, by recursion on the vector instead of by position.
  without : K → List A → List A
  without k [] = []
  without k (x ∷ l) = if t.beq (t.key x) k then l else x ∷ without k l

  position-remove :
      (k : K) (l : List A) (pos : ℕ)
      → position (has_key t k) l ≡ some pos
      → remove pos l ≡ without k l
  unfolding position remove without
  position-remove k [] pos h = cc
  position-remove k (x ∷ l) pos h = elim (Bool-cases (t.beq (t.key x) k)) [
    | inl same ↦ let e : pos ≡ 0 = ground arith in rw (e, same)
    | inr other ↦
        let (p, found, next) =
          (Option.map-eq-some_iff suc (position (has_key t k) l)).0 (rw other at h) in
        rw (← next, other) (ap (λ r. x ∷ r) (position-remove k l p found))
  ]

  find-position : (k : K) (l : List A) → (find_key t k l ≡ none) ↔ (position (has_key t k) l ≡ none)
  unfolding find position
  find-position k [] = (λ h. refl, λ h. refl)
  find-position k (x ∷ l) = let ih = find-position k l in ground (arith, ih)

  pub remove_found-eq-none_iff :
      (k : K) (l : List A) → (remove_found t k l ≡ none) ↔ (find_key t k l ≡ none)
  unfolding remove_found
  remove_found-eq-none_iff k l = (
    λ h. (find-position k l).1 ((Option.map-eq-none_iff _ _).0 h),
    λ h. (Option.map-eq-none_iff _ _).1 ((find-position k l).0 h),
  )

  remove_found-without :
      (k : K) (l : List A) {l' : List A} → remove_found t k l ≡ some l' → l' ≡ without k l
  unfolding remove_found
  remove_found-without k l h =
      let (pos, found, e) = (Option.map-eq-some_iff _ (position (has_key t k) l)).0 h in
      sym e ∙ position-remove k l pos found

  find-without_ne :
      (j k : K) (l : List A) → t.beq k j ≡ false → find_key t j (without k l) ≡ find_key t j l
  unfolding find without
  find-without_ne j k [] h = refl
  find-without_ne j k (x ∷ l) h =
      ground
        (arith, find-without_ne j k l, t.beq_iff (t.key x) k, t.beq_iff (t.key x) j, t.beq_iff k j)

  find-without_self : (k : K) (l : List A) → IsUnique t l → find_key t k (without k l) ≡ none
  unfolding find without
  find-without_self k [] u = refl
  find-without_self k (x ∷ l) (new, u) = elim (Bool-cases (t.beq (t.key x) k)) [
    | inl same ↦ rw same (rw ((t.beq_iff _ _).0 same) at new)
    | inr other ↦ rw other (rw other (find-without_self k l u))
  ]

  without-IsUnique : (k : K) (l : List A) → IsUnique t l → IsUnique t (without k l)
  unfolding without
  without-IsUnique k [] u = tt
  without-IsUnique k (x ∷ l) (new, u) = elim (Bool-cases (t.beq (t.key x) k)) [
    | inl same ↦ rw same u
    | inr other ↦ rw other (
      find-without_ne (t.key x) k l (ground (arith, t.beq_iff (t.key x) k, t.beq_iff k (t.key x)))
          ∙ new,
      without-IsUnique k l u,
    )
  ]

  -- The entries that `remove_found` leaves, if the keys are unique.
  pub find-remove_found :
      (j k : K) (l : List A) {l' : List A}
      → IsUnique t l
      → remove_found t k l ≡ some l'
      → find_key t j l' ≡ (if t.beq k j then none else find_key t j l)
  find-remove_found j k l u h = elim (Bool-cases (t.beq k j)) [
    | inl same ↦
        rw (remove_found-without k l h, same, ← (t.beq_iff k j).0 same) (find-without_self k l u)
    | inr other ↦ rw (remove_found-without k l h, other) (find-without_ne j k l other)
  ]

  pub remove_found-IsUnique :
      (k : K) (l : List A) {l' : List A}
      → IsUnique t l
      → remove_found t k l ≡ some l'
      → IsUnique t l'
  remove_found-IsUnique k l u h = rw (remove_found-without k l h) (without-IsUnique k l u)

-- ===== src/Users/Authorization/Laws.antt =====
-- Who is let through by `check_authorization`.
use vestirust.Prelude.{
  or_cases, Bool, true, false, Option, none, some, List, [], ◌∷◌, String, ◌≡◌, refl, sym, ◌↔◌, ◌⊎◌,
  inl, inr, eq_iff, ◌||◌, In, Bool-cases, arith,
}
use vestirust.Model.{StatusCode, User, HostType, roles, secured}
use vestirust.Users.Authorization.{
  has_role, has_common_role, check_user_has_role_or_forbid, check_authorization,
}

-- A role that stands in both lists.
abbrev pub Shared : List String → List String → Type 0
Shared xs ys = (r : String) × In r xs × In r ys

or_left : (a b : Bool) → a ≡ true → (a || b) ≡ true
or_left a b h = ground arith

or_right : (a b : Bool) → b ≡ true → (a || b) ≡ true
or_right a b h = ground arith

has_role-In : (r : String) (ys : List String) → has_role r ys ≡ true → In r ys
unfolding has_role
has_role-In r [] h = cc
has_role-In r (y ∷ ys) h = elim (or_cases _ _ h) [
  | inl e ↦ inl (sym ((eq_iff r y).0 e))
  | inr e ↦ inr (has_role-In r ys e)
]

In-has_role : (r : String) (ys : List String) → In r ys → has_role r ys ≡ true
unfolding has_role
In-has_role r [] h = elim h [ ]
In-has_role r (y ∷ ys) (inl e) = or_left _ _ ((eq_iff r y).1 (sym e))
In-has_role r (y ∷ ys) (inr h) = or_right _ _ (In-has_role r ys h)

has_common_role-Shared : (xs ys : List String) → has_common_role xs ys ≡ true → Shared xs ys
unfolding has_common_role
has_common_role-Shared [] ys h = cc
has_common_role-Shared (x ∷ xs) ys h = elim (or_cases _ _ h) [
  | inl e ↦ (x, inl refl, has_role-In x ys e)
  | inr e ↦ let (r, p, q) = has_common_role-Shared xs ys e in (r, inr p, q)
]

Shared-has_common_role :
    (xs ys : List String) (r : String) → In r xs → In r ys → has_common_role xs ys ≡ true
unfolding has_common_role
Shared-has_common_role [] ys r p q = elim p [ ]
Shared-has_common_role (x ∷ xs) ys r (inl e) q =
    or_left (has_role x ys) _ (rw e (In-has_role r ys q))
Shared-has_common_role (x ∷ xs) ys r (inr p) q = or_right _ _ (Shared-has_common_role xs ys r p q)

has_common_role_iff : (xs ys : List String) → (has_common_role xs ys ≡ true) ↔ Shared xs ys
has_common_role_iff xs ys =
    (has_common_role-Shared xs ys, λ (r, p, q). Shared-has_common_role xs ys r p q)

module _ {Authority Uri : Type 0} where
  -- A request may reach a service that is not secured, and a secured one if its user has one of the
  -- service's roles.
  pub data MayUse (target : HostType Authority Uri) (user : Option User) : Type 0 where
    unsecured : secured target ≡ false → MayUse target user
    by_role : (u : User) → user ≡ some u → Shared u.roles (roles target) → MayUse target user

  has_role-MayUse :
      (target : HostType Authority Uri) (user : Option User)
      → check_user_has_role_or_forbid user target ≡ none
      → MayUse target user
  unfolding check_user_has_role_or_forbid
  has_role-MayUse target none h = cc
  has_role-MayUse target (some u) h =
      by_role u refl ((has_common_role_iff u.roles (roles target)).0 (ground arith))

  MayUse-check :
      (target : HostType Authority Uri) (user : Option User)
      → MayUse target user
      → check_authorization target user ≡ none
  unfolding check_authorization
  MayUse-check target user (unsecured free) = rw free
  MayUse-check target user (by_role u e shared) =
      let common = (has_common_role_iff u.roles (roles target)).1 shared in
      rw (e, common) (ground arith)

  check-MayUse :
      (target : HostType Authority Uri) (user : Option User)
      → check_authorization target user ≡ none
      → MayUse target user
  unfolding check_authorization
  check-MayUse target user h = elim (Bool-cases (secured target)) [
    | inr free ↦ unsecured free
    | inl locked ↦ has_role-MayUse target user (rw locked at h)
  ]

  check_authorization_status :
      (target : HostType Authority Uri) (user : Option User)
      → (check_authorization target user ≡ none)
        ⊎ (check_authorization target user ≡ some StatusCode.forbidden)
  unfolding check_authorization
  check_authorization_status target none = ground arith
  check_authorization_status target (some u) = ground arith

  -- `check_authorization` lets a request through exactly when it may use the service, and answers
  -- any other with the status 403.
  pub check_authorization_iff :
      (target : HostType Authority Uri) (user : Option User)
      → ((check_authorization target user ≡ none) ↔ MayUse target user)
        × ((check_authorization target user ≡ none)
            ⊎ (check_authorization target user ≡ some StatusCode.forbidden))
  check_authorization_iff target user =
      ((check-MayUse target user, MayUse-check target user), check_authorization_status target user)

-- ===== src/Server/Admin/Guard.antt =====
-- Admin requests without the cookie of an admin.
use vestirust.Prelude.{
  or_cases, true, Option, none, some, List, [], ◌∷◌, String, ◌≡◌, ◌⊎◌, inl, inr, refl, eq_iff, err,
  In, Bool-cases, Option-cases,
}
use vestirust.Model.{StatusCode, User}
use vestirust.Configuration.{from_file}
use vestirust.Configuration.Interface.{Backend}
use vestirust.Users.Accounts.{is_admin, user_from_request, admin_from_request}
use vestirust.Server.Admin.{AdminRequest, admin_router}

-- The cookie of a user with the role "ADMINS".
abbrev pub IsAdminCookie : {World : Type 0} → Backend World → Option String → Type 0
IsAdminCookie backend cookie =
    (text : String) × (user : User) × (cookie ≡ some text)
    × (backend.user_from_json text ≡ some user)
    × In "ADMINS" user.roles

is_admin-In : (roles : List String) → is_admin roles ≡ true → In "ADMINS" roles
unfolding is_admin
is_admin-In [] h = cc
is_admin-In (r ∷ rs) h = elim (or_cases _ _ h) [
  | inl e ↦ inl ((eq_iff r "ADMINS").0 e)
  | inr e ↦ inr (is_admin-In rs e)
]

module _ {World : Type 0} (backend : Backend World) where
  -- A status that the extractor of `Admin` rejects a request with.
  abbrev pub IsRejection : StatusCode → Type 0
  IsRejection status =
      (status ≡ StatusCode.unauthorized) ⊎ (status ≡ StatusCode.internal_server_error)

  admin_from_request_cases :
      (cookie : Option String)
      → IsAdminCookie backend cookie
        ⊎ ((status : StatusCode) × (admin_from_request backend cookie ≡ err status)
            × IsRejection status)
  unfolding admin_from_request user_from_request
  admin_from_request_cases none = inr (StatusCode.unauthorized, refl, inl refl)
  admin_from_request_cases (some text) = elim (Option-cases (backend.user_from_json text)) [
    | inl e ↦ inr (StatusCode.internal_server_error, rw e, inr refl)
    | inr (user, e) ↦ elim (Bool-cases (is_admin user.roles)) [
      | inl yes_admin ↦ inl (text, user, refl, e, is_admin-In user.roles yes_admin)
      | inr other ↦ inr (StatusCode.unauthorized, rw (e, other), inl refl)
    ]
  ]

  -- A request without the cookie of an admin leaves the world as it was, whatever it asks for, and
  -- is answered with the status 401 or 500 and no text.
  pub admin_router-guarded :
      (salt config_file : String) (cookie : Option String) (request : AdminRequest) (w : World)
      → ¬ IsAdminCookie backend cookie
      → (status : StatusCode) × (admin_router backend salt config_file cookie request w
          ≡ (w, err (status, "")))
        × IsRejection status
  unfolding admin_router
  admin_router-guarded salt config_file cookie request w h =
      elim (Option-cases (from_file backend w config_file)) [
        | inl e ↦ (StatusCode.internal_server_error, rw (e, admin_router), inr refl)
        | inr (config, e) ↦ elim (admin_from_request_cases cookie) [
          | inl admin ↦ absurd (h admin)
          | inr (status, rejected, known) ↦ (status, rw (e, admin_router, rejected), known)
        ]
      ]

-- ===== src/Tests/Turns.antt =====
-- Runs of the theorems on the requests of one session: a login, a refusal, and what an admin may do
-- once she has deleted herself.
use vestirust.Prelude
use vestirust.Prelude.{
  ℕ, Bool, true, false, Option, none, some, String, List, [], ◌∷◌, ◌≡◌, ◌≢◌, refl, ok, err, ◌==◌,
  ◌||◌, All, str_eq, if◌then◌else◌, inl,
}
use vestirust.Prelude.Tables.{find_key, remove_found, IsUnique}
use vestirust.Model.{StatusCode, Config}
use vestirust.Configuration.{from_file}
use vestirust.Users.Accounts.{by_login, admin_from_request, delete_user}
use vestirust.Users.Accounts.Session.{without_password}
use vestirust.Configuration.Interface.{IsStorage}
use vestirust.Server.Routes.{nest, find_route, website_router}
use vestirust.Server.Website.Keys.{KeepsKeys, could_not_save, serve_all, serve_all-KeepsKeys}
use vestirust.Prelude.Texts.{concat}
use vestirust.Server.Admin.Revoked.{deleted-still_admin}
use vestirust.Server.Admin.{AdminRequest, admin_handler, admin_router}
use vestirust.Server.Website.{WebRequest, replied, rejected_with, website}
use vestirust.Tests.Storage.{backend_with-IsStorage, backend_with-IsUserJson, to_file_saved_with}
use vestirust.Tests.Website.{
  web_api, ada, request, without_ada, with_ada, backend, server, ada_cookie, forged, accepts_ada,
  logs_in,
}

abbrev resigns : WebRequest
resigns = request "DELETE" "/api/admin/users/:user_login" (some "1saved")

-- A login, a refused request, and the deletion of the user by herself.
abbrev turns : List (ℕ × String × WebRequest)
turns =
    (1, "salt", request "POST" "/auth/local" none)
    ∷ (1, "pepper", forged)
    ∷ (1, "sugar", resigns)
    ∷ []

abbrev storage : IsStorage backend
storage = backend_with-IsStorage with_ada without_ada (without_password ada)

holds_ada : KeepsKeys storage web_api server (some "before")
unfolding from_file Prelude.find
holds_ada = (with_ada, refl, record { apps = tt; davs = tt; users = (refl, tt) })

abbrev deleted : StatusCode × String
deleted = (StatusCode.ok, "user deleted successfully")

deletes_ada :
    delete_user backend "vestibule.yaml" with_ada "ada" (some "before") ≡ (some "saved", ok deleted)
unfolding delete_user remove_found
deletes_ada =
    to_file_saved_with with_ada without_ada (without_password ada) "vestibule.yaml" deleted
      (some "before")

refuses_forged :
    website backend web_api server 1 "pepper" forged (some "before")
    ≡ (some "before", rejected_with StatusCode.unauthorized)
unfolding website find_route website_router nest concat admin_router from_file admin_from_request
refuses_forged = refl

resigned :
    website backend web_api server 1 "sugar" resigns (some "before")
    ≡ (some "saved", replied (ok deleted))
unfolding website find_route website_router nest concat admin_router from_file admin_from_request
resigned = rw deletes_ada refl

turns_saved :
    All (λ reply. reply ≢ could_not_save) (serve_all storage web_api server turns (some "before")).1
turns_saved = rw (logs_in, refuses_forged, resigned) ((λ e. cc), ((λ e. cc), ((λ e. cc), tt)))

serve_all-KeepsKeys_example :
    KeepsKeys storage web_api server (serve_all storage web_api server turns (some "before")).0
serve_all-KeepsKeys_example =
    serve_all-KeepsKeys storage web_api server turns (some "before") holds_ada turns_saved

unique_ada : IsUnique by_login with_ada.users
unfolding Prelude.find
unique_ada = (refl, tt)

-- With the cookie of before, the user who was deleted asks for all users.
deleted-still_admin_example :
    (after : Config) × (from_file backend (some "saved") "vestibule.yaml" ≡ some after)
    × (find_key by_login "ada" after.users ≡ none)
    × (admin_router backend "salt" "vestibule.yaml"
          (some "saved")
          AdminRequest.get_users
          (some "saved")
        ≡ admin_handler backend "salt" "vestibule.yaml" after AdminRequest.get_users (some "saved"))
unfolding Prelude.find
deleted-still_admin_example =
    deleted-still_admin storage
      (backend_with-IsUserJson with_ada without_ada (without_password ada)) "salt" "vestibule.yaml"
      with_ada with_ada "example.com:8080" "ada" "secret" ada_cookie ada AdminRequest.get_users
      (some "before") (some "saved") deleted accepts_ada refl (inl refl) unique_ada deletes_ada

-- ===== src/Tests/Services.antt =====
-- Runs of the theorems on the handlers of the apps and the davs, and on the router of the admins.
use vestirust.Prelude
use vestirust.Prelude.{
  str_eq, ℕ, none, some, String, [], ◌∷◌, ◌≡◌, ◌↔◌, ◌⊎◌, Bool, true, false, refl, sym, ap, List,
  Option, ok, err, ◌==◌, if◌then◌else◌,
}
use vestirust.Prelude.Tables.{replace_or_push}
use vestirust.Model.{StatusCode, App, Dav, Config}
use vestirust.Configuration.{from_file, to_file, to_file_or_internal_server_error}
use vestirust.Configuration.Interface.{Backend, IsStorage, without_keys}
use vestirust.Users.Accounts.{admin_from_request}
use vestirust.Apps.{add_app}
use vestirust.Davs.Model.{add_dav}
use vestirust.Server.Admin.{AdminRequest, admin_handler, admin_router}
use vestirust.Server.Admin.Keys.{HasUniqueKeys}
use vestirust.Server.Admin.Promises.{Keeps, admin_router-Keeps}
use vestirust.Server.Admin.Races.{admin_handler-lost}
use vestirust.Tests.Storage.{
  World, Config-discrete, backend_for, backend_for-IsStorage, to_file_saved,
}

abbrev pub wiki : App
wiki = record {
  id = 1;
  name = "Wiki";
  icon = "book";
  color = "";
  is_proxy = true;
  host = "wiki";
  forward_to = "localhost:3000";
  secured = true;
  login = "";
  password = "";
  openpath = "";
  roles = "USERS" ∷ [];
}

abbrev pub mail : App
mail = record wiki { id = 2; name = "Mail"; host = "mail" }

abbrev pub files : Dav
files = record {
  id = 1;
  host = "files";
  directory = "/srv/files";
  writable = true;
  name = "Files";
  icon = "folder";
  color = "";
  secured = true;
  allow_symlinks = false;
  roles = "USERS" ∷ [];
  passphrase = "secret";
  key = some (1 ∷ 2 ∷ []);
}

abbrev pub few : Config
few = record {
  hostname = "example.com";
  debug_mode = false;
  http_port = 8080;
  auto_tls = false;
  letsencrypt_email = "";
  apps = wiki ∷ [];
  davs = [];
  users = [];
}

abbrev with_mail : Config
with_mail = record few { apps = wiki ∷ mail ∷ [] }

abbrev pub created_app : StatusCode × String
created_app = (StatusCode.created, "app created or updated successfully")

abbrev with_files : Config
with_files = record few { davs = files ∷ [] }

routes_mail :
    admin_router
      (backend_for few with_mail)
      "salt"
      "vestibule.yaml"
      (some "ada")
      (AdminRequest.add_app (ok mail))
      (some "before")
    ≡ (some "saved", ok created_app)
unfolding admin_router from_file admin_from_request add_app replace_or_push
routes_mail = to_file_saved few with_mail "vestibule.yaml" created_app (some "before")

pub few-HasUniqueKeys : HasUniqueKeys few
unfolding Prelude.find
few-HasUniqueKeys = record { apps = (refl, tt); davs = tt; users = tt }

admin_router-Keeps_example :
    Keeps
      (backend_for-IsStorage few with_mail)
      "salt"
      "vestibule.yaml"
      (AdminRequest.add_app (ok mail))
      few
      (some "saved")
unfolding from_file
admin_router-Keeps_example =
    admin_router-Keeps (backend_for-IsStorage few with_mail) "salt" "vestibule.yaml" few
      (some "ada") (AdminRequest.add_app (ok mail)) (some "before") (some "saved") created_app refl
      few-HasUniqueKeys routes_mail

-- An encoding that knows two configurations.
abbrev two_texts : {P Q : Type 0} → Dec P → Dec Q → Option String
two_texts (yes p) q = some "mail"
two_texts (no p) (yes q) = some "files"
two_texts (no p) (no q) = none

abbrev pub busy : Backend World
busy = record (backend_for few few) {
  to_yaml = λ c. two_texts (Config-discrete c with_mail) (Config-discrete c with_files);
  from_yaml = λ text.
      if str_eq text "mail"
      then some with_mail
      else if str_eq text "before"
      then some few
      else some (without_keys with_files);
}

pub busy-IsStorage : IsStorage busy
busy-IsStorage = record {
  read_written = (backend_for-IsStorage few few).read_written;
  decode_encoded =
      λ c contents h. known (Config-discrete c with_mail) (Config-discrete c with_files) h;
}
  where
    known :
        {c : Config} {contents : String} (p : Dec (c ≡ with_mail)) (q : Dec (c ≡ with_files))
        → two_texts p q ≡ some contents
        → busy.from_yaml contents ≡ some (without_keys c)
    known {c} {contents} (yes e) q h = let same : contents ≡ "mail" = cc in rw (same, e) refl
    known {c} {contents} (no n) (yes e) h = let same : contents ≡ "files" = cc in rw (same, e) refl
    known {c} {contents} (no n) (no m) h = cc

mail_text : busy.to_yaml with_mail ≡ some "mail"
mail_text = text (Config-discrete with_mail with_mail) (Config-discrete with_mail with_files)
  where
    text :
        (p : Dec (with_mail ≡ with_mail)) (q : Dec (with_mail ≡ with_files))
        → two_texts p q ≡ some "mail"
    text (yes p) q = refl
    text (no p) q = absurd (p refl)

files_text : busy.to_yaml with_files ≡ some "files"
files_text = text (Config-discrete with_files with_mail) (Config-discrete with_files with_files)
  where
    text :
        (p : Dec (with_files ≡ with_mail)) (q : Dec (with_files ≡ with_files))
        → two_texts p q ≡ some "files"
    text (yes p) q = cc
    text (no p) (yes q) = refl
    text (no p) (no q) = absurd (q refl)

abbrev pub created_dav : StatusCode × String
created_dav = (StatusCode.created, "dav created or updated successfully")

writes_mail : (w : World) → to_file busy with_mail "vestibule.yaml" w ≡ (some "mail", true)
unfolding to_file
writes_mail w = rw (mail_text, to_file)

writes_files : (w : World) → to_file busy with_files "vestibule.yaml" w ≡ (some "files", true)
unfolding to_file
writes_files w = rw (files_text, to_file)

pub adds_mail :
    (w : World)
    → admin_handler busy "salt" "vestibule.yaml" few (AdminRequest.add_app (ok mail)) w
      ≡ (some "mail", ok created_app)
unfolding admin_handler add_app replace_or_push to_file_or_internal_server_error
adds_mail w = rw (writes_mail w, to_file_or_internal_server_error)

pub adds_files :
    (w : World)
    → admin_handler busy "salt" "vestibule.yaml" few (AdminRequest.add_dav (ok files)) w
      ≡ (some "files", ok created_dav)
unfolding admin_handler add_dav replace_or_push to_file_or_internal_server_error
adds_files w = rw (writes_files w, to_file_or_internal_server_error)

-- The app was created, and the file holds the dav and the apps of before.
admin_handler-lost_example :
    (from_file busy (some "files") "vestibule.yaml"
      ≡ from_file busy (some "files") "vestibule.yaml")
    × Keeps busy-IsStorage "salt" "vestibule.yaml"
        (AdminRequest.add_dav (ok files))
        few
        (some "files")
admin_handler-lost_example =
    admin_handler-lost busy-IsStorage "salt" "vestibule.yaml" few (AdminRequest.add_app (ok mail))
      (AdminRequest.add_dav (ok files)) none (some "mail") (some "files") (some "files") created_app
      created_dav created_dav refl few-HasUniqueKeys (adds_mail none) (adds_files (some "mail"))
      (adds_files none)

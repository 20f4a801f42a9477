-- ===== src/Tests/Storage.antt =====
-- A backend for the runs: a file system with one file, and an encoding that knows one configuration.
use native.Mathlib.Decide.{ℕ_discrete}
use vestirust.Prelude.{
  true, Option, none, some, String, [], ◌∷◌, ◌≡◌, refl, sym, ap, str_eq, eq_iff, Bool-cases, inl,
  inr, eq_refl, ok, arith, if◌then◌else◌,
}
use vestirust.Model.{StatusCode, User, Config}
use vestirust.Users.Accounts.Session.{IsUserJson}
use vestirust.Configuration.{to_file, to_file_or_internal_server_error}
use vestirust.Configuration.Interface.{Backend, IsStorage, IsPasswordHash, without_keys}

abbrev pub World : Type 0
World = Option String

pub String_discrete : Discrete String
String_discrete a b = elim (Bool-cases (str_eq a b)) [
  | inl e ↦ yes ((eq_iff a b).0 e)
  | inr e ↦ no (λ p. cc ((eq_iff a b).1 p))
]

pub Config-discrete : Discrete Config
Config-discrete = hlevel (ℕ_discrete, String_discrete)

abbrev pub text_if : {P : Type 0} → Dec P → Option String
text_if (yes e) = some "saved"
text_if (no n) = none

-- The encoding knows `saved` only, and the text "before" decodes to `before`. The text of a user is
-- the login, and the hash of a password is the password itself.
abbrev pub backend_for : Config → Config → Backend World
backend_for before saved = record {
  read_to_string = λ w filepath. w;
  write = λ w filepath contents. (some contents, true);
  to_yaml = λ config. text_if (Config-discrete config saved);
  from_yaml = λ text. if str_eq text "before" then some before else some (without_keys saved);
  users_to_json = λ users. some "users";
  apps_to_json = λ apps. some "apps";
  davs_to_json = λ davs. some "davs";
  user_to_json = λ user. some user.login;
  user_from_json = λ text. some (record {
    login = text;
    password = "";
    roles = if str_eq text "ada" then "ADMINS" ∷ [] else [];
  });
  argon2_hash = λ password salt. some password;
  argon2_verify = λ hash password. some (str_eq password hash);
}

text_if_saved : (saved : Config) → text_if (Config-discrete saved saved) ≡ some "saved"
text_if_saved saved = known (Config-discrete saved saved)
  where
    known : (d : Dec (saved ≡ saved)) → text_if d ≡ some "saved"
    known (yes e) = refl
    known (no n) = absurd (n refl)

pub backend_for-IsStorage : (before saved : Config) → IsStorage (backend_for before saved)
backend_for-IsStorage before saved = record {
  read_written = λ w w' filepath contents h. sym (ap (λ t. t.0) h);
  decode_encoded = λ config contents h. known (Config-discrete config saved) h;
}
  where
    known :
        {config : Config} {contents : String} (d : Dec (config ≡ saved))
        → text_if d ≡ some contents
        → (backend_for before saved).from_yaml contents ≡ some (without_keys config)
    known {config} {contents} (yes e) h =
        let same : contents ≡ "saved" = cc in rw same (ap (λ c. some (without_keys c)) (sym e))
    known {config} {contents} (no n) h = cc

pub backend_for-IsPasswordHash : (before saved : Config) → IsPasswordHash (backend_for before saved)
backend_for-IsPasswordHash before saved = record {
  verify_same = λ password salt hash h. ground (arith, eq_refl password);
  verify_only = λ password salt hash other h v. cc (h, (eq_iff other hash).0 (ground arith));
}

to_file-true :
    (before saved : Config) (config_file : String) (w : World)
    → to_file (backend_for before saved) saved config_file w ≡ (some "saved", true)
unfolding to_file
to_file-true before saved config_file w = rw (text_if_saved saved, to_file)

-- What a handler answers when it has the configuration `saved` to save.
pub to_file_saved :
    (before saved : Config) (config_file : String) (done : StatusCode × String) (w : World)
    → to_file_or_internal_server_error (backend_for before saved) saved config_file done w
      ≡ (some "saved", ok done)
unfolding to_file_or_internal_server_error
to_file_saved before saved config_file done w =
    rw (to_file-true before saved config_file w, to_file_or_internal_server_error)

pub User-discrete : Discrete User
User-discrete = hlevel (ℕ_discrete, String_discrete)

-- The same, with an encoding of users that knows one user.
abbrev pub backend_with : Config → Config → User → Backend World
backend_with before saved known = record (backend_for before saved) {
  user_to_json = λ user. text_if (User-discrete user known);
  user_from_json = λ text. some known;
}

pub backend_with-IsStorage :
    (before saved : Config) (known : User) → IsStorage (backend_with before saved known)
backend_with-IsStorage before saved known = record {
  read_written = (backend_for-IsStorage before saved).read_written;
  decode_encoded = (backend_for-IsStorage before saved).decode_encoded;
}

pub backend_with-IsUserJson :
    (before saved : Config) (known : User) → IsUserJson (backend_with before saved known)
backend_with-IsUserJson before saved known = record {
  decode_user = λ user text h. same (User-discrete user known) h;
}
  where
    same :
        {user : User} {text : String} (d : Dec (user ≡ known))
        → text_if d ≡ some text
        → ◌≡◌ {A = Option User} (some known) (some user)
    same (yes e) h = ap some (sym e)
    same (no n) h = cc

-- The text of the known user.
pub encodes_known :
    (before saved : Config) (known : User)
    → (backend_with before saved known).user_to_json known ≡ some "saved"
encodes_known before saved known = text (User-discrete known known)
  where
    text : (d : Dec (known ≡ known)) → text_if d ≡ some "saved"
    text (yes e) = refl
    text (no n) = absurd (n refl)

pub to_file_saved_with :
    (before saved : Config) (known : User) (config_file : String) (done : StatusCode × String)
    (w : World)
    → to_file_or_internal_server_error (backend_with before saved known) saved config_file done w
      ≡ (some "saved", ok done)
unfolding to_file_or_internal_server_error to_file
to_file_saved_with before saved known config_file done w =
    to_file_saved before saved config_file done w

-- ===== src/Tests/Settings.antt =====
-- Runs of the theorems on the encoding of the configuration.
use native.Mathlib.Decide.{ℕ_discrete}
use vestirust.Prelude.{true, false, Option, none, some, String, [], ◌∷◌, ◌≡◌, refl, sym, ap, arith}
use vestirust.Model.{Config}
use vestirust.Configuration.{from_file, to_file}
use vestirust.Configuration.Interface.{Backend, without_keys}
use vestirust.Configuration.Values.{
  Value, Fields, text, number, sequence, no_items, no_fields, field, get, required, or_default,
  read_list, read_text, read_boolean, read_number,
}
use vestirust.Configuration.Serde.{write_config, config_of}
use vestirust.Configuration.Serde.Laws.{IsInRange}
use vestirust.Configuration.Serde.Storage.{
  Format, IsFormat, IsDisk, in_range?, config_to_yaml, with_serde, from_file-saved,
}
use vestirust.Tests.Storage.{World, String_discrete, text_if, backend_for, backend_for-IsStorage}
use vestirust.Configuration.Serde.Missing.{drop_field, config_of-drop_field}

abbrev config : Config
config = record {
  hostname = "example.com";
  debug_mode = false;
  http_port = 80;
  auto_tls = true;
  letsencrypt_email = "ada@example.com";
  apps = [];
  davs =
      record {
        id = 1;
        host = "files";
        directory = "/srv/files";
        writable = true;
        name = "Files";
        icon = "folder";
        color = "";
        secured = true;
        allow_symlinks = false;
        roles = "USERS" ∷ [];
        passphrase = "secret";
        key = some (1 ∷ 2 ∷ []);
      }
      ∷ [];
  users = record { login = "ada"; password = ""; roles = "ADMINS" ∷ [] } ∷ [];
}

config-IsInRange : IsInRange config
config-IsInRange = record { port = omega arith; app_ids = tt; dav_ids = omega arith }

Value-discrete : Discrete Value
Value-discrete = hlevel (ℕ_discrete, String_discrete)

-- A format with one text, that of the value `known`.
abbrev format_of : Value → Format
format_of known = record {
  to_string = λ v. text_if (Value-discrete v known);
  from_str = λ contents. some known;
}

format_of-IsFormat : (known : Value) → IsFormat (format_of known)
format_of-IsFormat known = record {
  from_str-to_string = λ v contents h. same (Value-discrete v known) h;
}
  where
    same :
        {v : Value} {contents : String} (d : Dec (v ≡ known))
        → text_if d ≡ some contents
        → ◌≡◌ {A = Option Value} (some known) (some v)
    same (yes e) h = ap some (sym e)
    same (no n) h = cc

backend_for-IsDisk : (before saved : Config) → IsDisk (backend_for before saved)
backend_for-IsDisk before saved = record {
  read_written = (backend_for-IsStorage before saved).read_written;
}

abbrev yaml : Format
yaml = format_of (write_config config)

abbrev serde_backend : Backend World
serde_backend = with_serde yaml yaml (backend_for config config)

saved : to_file serde_backend config "vestibule.yaml" none ≡ (some "saved", true)
unfolding to_file config_to_yaml
saved = rw (encodes (in_range? config), to_file) refl
  where
    text_of : (d : Dec (write_config config ≡ write_config config)) → text_if d ≡ some "saved"
    text_of (yes e) = refl
    text_of (no n) = absurd (n refl)

    encodes : (r : Dec (IsInRange config)) → config_to_yaml yaml config r ≡ some "saved"
    encodes (yes r) = text_of (Value-discrete (write_config config) (write_config config))
    encodes (no n) = absurd (n config-IsInRange)

from_file-saved_example :
    from_file serde_backend (some "saved") "vestibule.yaml" ≡ some (without_keys config)
from_file-saved_example =
    from_file-saved yaml (backend_for-IsDisk config config)
      (format_of-IsFormat (write_config config)) config "vestibule.yaml" none (some "saved") saved

-- A file with a port, a field that the program does not know, and what it must have.
abbrev fields : Fields
fields = field "http_port" (number 80) (
    field "comment" (text "mine") (
      field "letsencrypt_email" (text "") (
        field "apps" (sequence no_items)
          (field "davs" (sequence no_items) (field "users" (sequence no_items) no_fields)))))

abbrev small : Config
small = record {
  hostname = "vestibule.io";
  debug_mode = false;
  http_port = 80;
  auto_tls = false;
  letsencrypt_email = "";
  apps = [];
  davs = [];
  users = [];
}

decodes : config_of fields ≡ some small
unfolding config_of get required or_default read_list read_text read_boolean read_number
decodes = refl

config_of-drop_field_example :
    config_of (drop_field "http_port" fields) ≡ some (record small { http_port = 8080 })
config_of-drop_field_example = config_of-drop_field fields small decodes "http_port"

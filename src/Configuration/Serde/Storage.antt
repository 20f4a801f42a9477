-- ===== src/Configuration/Serde/Storage.antt =====
-- src/configuration.rs and src/users.rs: the texts that `serde_yaml` and `serde_json` make of the
-- derived encodings, as the handlers use them.
use vestirust.Prelude.{
  ℕ, ◌<◌, true, Option, none, some, String, List, [], ◌∷◌, All, ◌≡◌, inl, inr, Bool-cases, ltb,
  arith,
}
use vestirust.Prelude.Words.{u64_mod}
use vestirust.Model.{User, Config}
use vestirust.Configuration.Interface.{Backend, IsStorage, without_keys}
use vestirust.Configuration.{from_file, to_file}
use vestirust.Configuration.Laws.{from_file-to_file}
use vestirust.Configuration.Values.{Value, ◌>>=◌, write_list}
use vestirust.Configuration.Serde.{
  u16_mod, write_user, read_user, write_app, write_dav, write_config, read_config,
}
use vestirust.Configuration.Serde.Laws.{IsInRange, read_user-write_user, read_config-write_config}
use vestirust.Users.Accounts.Session.{IsUserJson}

-- `to_string` and `from_str` of `serde_yaml` or of `serde_json`, on the values of serde.
pub record Format : Type 0 where
  pub to_string : Value → Option String
  pub from_str : String → Option Value

-- A value that was written reads back.
pub record IsFormat (format : Format) : Type 0 where
  pub from_str-to_string :
      (v : Value) (contents : String)
      → format.to_string v ≡ some contents
      → format.from_str contents ≡ some v

below? : (n bound : ℕ) → Dec (n < bound)
below? n bound = elim (Bool-cases (ltb n bound)) [
  | inl e ↦ yes (ground arith)
  | inr e ↦ no (λ h. ground arith)
]

all? : {A : Type 0} {P : A → Type 0} → ((a : A) → Dec (P a)) → (l : List A) → Dec (All P l)
all? test [] = yes tt
all? test (a ∷ l) = elim (test a) [
  | yes p ↦ elim (all? test l) [ yes ps ↦ yes (p, ps) | no n ↦ no (λ h. n h.1) ]
  | no n ↦ no (λ h. n h.0)
]

pub in_range? : (config : Config) → Dec (IsInRange config)
in_range? config = elim (below? config.http_port u16_mod) [
  | no n ↦ no (λ r. n r.port)
  | yes port ↦ elim (all? (λ a. below? a.id u64_mod) config.apps) [
    | no n ↦ no (λ r. n r.app_ids)
    | yes app_ids ↦ elim (all? (λ d. below? d.id u64_mod) config.davs) [
      | no n ↦ no (λ r. n r.dav_ids)
      | yes dav_ids ↦ yes (record { port = port; app_ids = app_ids; dav_ids = dav_ids })
    ]
  ]
]

-- `serde_yaml::to_string(self)`. A configuration with a number that is no value of its type is none of
-- the source's, and has no text.
unfoldable pub config_to_yaml : Format → (config : Config) → Dec (IsInRange config) → Option String
config_to_yaml yaml config (yes r) = yaml.to_string (write_config config)
config_to_yaml yaml config (no n) = none

unfoldable pub config_from_yaml : Format → String → Option Config
config_from_yaml yaml contents = do v ← yaml.from_str contents; read_config v

-- `serde_json::from_str::<User>`
unfoldable pub user_from_json : Format → String → Option User
user_from_json json contents = do v ← json.from_str contents; read_user v

-- The derived encodings, in place of those of an interface.
abbrev pub with_serde : {World : Type 0} → Format → Format → Backend World → Backend World
with_serde yaml json backend = record backend {
  to_yaml = λ config. config_to_yaml yaml config (in_range? config);
  from_yaml = config_from_yaml yaml;
  users_to_json = λ users. json.to_string (write_list write_user users);
  apps_to_json = λ apps. json.to_string (write_list write_app apps);
  davs_to_json = λ davs. json.to_string (write_list write_dav davs);
  user_to_json = λ user. json.to_string (write_user user);
  user_from_json = user_from_json json;
}

-- A file that was written reads back.
pub record IsDisk {World : Type 0} (backend : Backend World) : Type 0 where
  pub read_written :
      (w w' : World) (filepath contents : String)
      → backend.write w filepath contents ≡ (w', true)
      → backend.read_to_string w' filepath ≡ some contents

decode_config :
    {yaml : Format}
    → IsFormat yaml
    → (config : Config) (r : Dec (IsInRange config)) (contents : String)
    → config_to_yaml yaml config r ≡ some contents
    → config_from_yaml yaml contents ≡ some (without_keys config)
unfolding config_to_yaml config_from_yaml
decode_config format config (yes r) contents h =
    rw (format.from_str-to_string (write_config config) contents h)
      (read_config-write_config config r)
decode_config format config (no n) contents h = cc

module _ {World : Type 0} {backend : Backend World} {yaml : Format} (json : Format) where
  pub with_serde-IsStorage :
      IsDisk backend → IsFormat yaml → IsStorage (with_serde yaml json backend)
  with_serde-IsStorage disk format = record {
    read_written = disk.read_written;
    decode_encoded = λ config contents h. decode_config format config (in_range? config) contents h;
  }

  -- Where a disk reads back what was written and `serde_yaml` reads back its own text, a
  -- configuration that was saved is read back from its file, but for the keys of its davs.
  pub from_file-saved :
      IsDisk backend
      → IsFormat yaml
      → (config : Config) (filepath : String) (w w' : World)
      → to_file (with_serde yaml json backend) config filepath w ≡ (w', true)
      → from_file (with_serde yaml json backend) w' filepath ≡ some (without_keys config)
  from_file-saved disk format = from_file-to_file (with_serde-IsStorage disk format)

module _ {World : Type 0} (backend : Backend World) (yaml : Format) {json : Format} where
  pub with_serde-IsUserJson : IsFormat json → IsUserJson (with_serde yaml json backend)
  unfolding user_from_json
  with_serde-IsUserJson format = record {
    decode_user = λ user contents h.
        rw (format.from_str-to_string (write_user user) contents h) (read_user-write_user user);
  }

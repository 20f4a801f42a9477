-- ===== src/Configuration/Interface.antt =====
-- What the handlers use of `tokio::fs`, `serde_yaml`, `serde_json` and `argon2`, as an interface, and
-- the documented behaviour that theorems assume of it.
use vestirust.Prelude.{Bool, true, Option, none, some, String, List, map, ◌≡◌}
use vestirust.Model.{User, App, Dav, Config}

-- `World` is the state of the file system. A failed write may have changed it.
pub record Backend (World : Type 0) : Type 0 where
  pub read_to_string : World → String → Option String
  pub write : World → String → String → World × Bool
  pub to_yaml : Config → Option String
  pub from_yaml : String → Option Config
  pub users_to_json : List User → Option String
  pub apps_to_json : List App → Option String
  pub davs_to_json : List Dav → Option String
  pub user_to_json : User → Option String
  pub user_from_json : String → Option User
  -- Argon2 with a salt, and with the parsed text of a hash (`none` if it does not parse)
  pub argon2_hash : String → String → Option String
  pub argon2_verify : String → String → Option Bool

-- `#[serde(skip)]` on the key: it is not written, and read back as its default.
abbrev pub without_key : Dav → Dav
without_key d = record d { key = none }

abbrev pub without_keys : Config → Config
without_keys config = record config { davs = map without_key config.davs }

-- A file that was written reads back, and a configuration that was encoded decodes to itself but for
-- the fields that are skipped.
pub record IsStorage {World : Type 0} (backend : Backend World) : Type 0 where
  pub read_written :
      (w w' : World) (filepath contents : String)
      → backend.write w filepath contents ≡ (w', true)
      → backend.read_to_string w' filepath ≡ some contents
  pub decode_encoded :
      (config : Config) (contents : String)
      → backend.to_yaml config ≡ some contents
      → backend.from_yaml contents ≡ some (without_keys config)

-- Argon2 accepts the password that was hashed, and no other.
pub record IsPasswordHash {World : Type 0} (backend : Backend World) : Type 0 where
  pub verify_same :
      (password salt hash : String)
      → backend.argon2_hash password salt ≡ some hash
      → backend.argon2_verify hash password ≡ some true
  pub verify_only :
      (password salt hash other : String)
      → backend.argon2_hash password salt ≡ some hash
      → backend.argon2_verify hash other ≡ some true
      → other ≡ password

-- ===== src/Configuration/Serde/Laws.antt =====
-- The decoding of what was encoded.
use vestirust.Prelude.{
  ◌<◌, some, String, List, [], ◌∷◌, map, ◌≡◌, refl, ap, ◌∙◌, sym, inl, inr, All, All-mono,
  Bool-cases, str_eq, eq_iff,
}
use vestirust.Prelude.Words.{u64_mod}
use vestirust.Model.{User, App, Dav, Config}
use vestirust.Configuration.Interface.{without_key, without_keys}
use vestirust.Configuration.Values.{
  text, get, required, or_default, read_text, read_boolean, read_list-write_list,
  read_number-number,
}
use vestirust.Configuration.Serde.{
  texts, read_texts, u16_mod, write_user, read_user, write_app, read_app, write_dav, read_dav,
  write_config, read_config,
}

map_same : {A : Type 0} (l : List A) → map (λ a. a) l ≡ l
map_same [] = refl
map_same (a ∷ l) = ap (λ t. a ∷ t) (map_same l)

every : {A : Type 0} {P : A → Type 0} → ((a : A) → P a) → (l : List A) → All P l
every f [] = tt
every f (a ∷ l) = (f a, every f l)

read_texts-texts : (l : List String) → read_texts (texts l) ≡ some l
unfolding read_text
read_texts-texts l =
    read_list-write_list text read_text (λ s. s) l (every (λ s. refl) l) ∙ ap some (map_same l)

pub read_user-write_user : (user : User) → read_user (write_user user) ≡ some user
unfolding read_user write_user get required or_default read_text
read_user-write_user user = elim (Bool-cases (str_eq user.password "")) [
  | inl empty ↦
      rw (empty, read_texts-texts user.roles)
        (ap (λ p. some (record user { password = p })) (sym ((eq_iff user.password "").0 empty)))
  | inr given ↦ rw (given, read_texts-texts user.roles) refl
]

read_app-write_app : (a : App) → a.id < u64_mod → read_app (write_app a) ≡ some a
unfolding read_app write_app get required read_text read_boolean
read_app-write_app a h = rw (read_number-number u64_mod a.id h, read_texts-texts a.roles) refl

read_dav-write_dav : (d : Dav) → d.id < u64_mod → read_dav (write_dav d) ≡ some (without_key d)
unfolding read_dav write_dav get required or_default read_text read_boolean
read_dav-write_dav d h = rw (read_number-number u64_mod d.id h, read_texts-texts d.roles) refl

-- The numbers of a configuration are values of their types, `u16` and `usize`.
pub record IsInRange (config : Config) : Type 0 where
  pub port : config.http_port < u16_mod
  pub app_ids : All (λ a. a.id < u64_mod) config.apps
  pub dav_ids : All (λ d. d.id < u64_mod) config.davs

-- A configuration whose numbers are values of their types decodes, once it was encoded, to itself, but
-- for the keys of its davs, which are not encoded.
pub read_config-write_config :
    (config : Config)
    → IsInRange config
    → read_config (write_config config) ≡ some (without_keys config)
unfolding read_config write_config get required or_default read_text read_boolean
read_config-write_config config r =
    let apps =
      read_list-write_list write_app read_app (λ a. a) config.apps
        (All-mono read_app-write_app config.apps r.app_ids) in
    let davs =
      read_list-write_list write_dav read_dav without_key config.davs
        (All-mono read_dav-write_dav config.davs r.dav_ids) in
    let users =
      read_list-write_list write_user read_user (λ u. u) config.users
        (every read_user-write_user config.users) in
    rw
      (
        read_number-number u16_mod config.http_port r.port,
        apps,
        davs,
        users,
        map_same config.apps,
        map_same config.users,
      )
      refl

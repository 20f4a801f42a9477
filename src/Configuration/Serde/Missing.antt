-- ===== src/Configuration/Serde/Missing.antt =====
-- A file without some of its fields.
use mathlib.Core.Option
use vestirust.Prelude.{
  ap, ℕ, Bool, some, none, String, List, ◌≡◌, refl, inl, inr, Bool-cases, Option, str_eq, eq_iff,
  if◌then◌else◌, arith,
}
use vestirust.Model.{User, App, Dav, Config}
use vestirust.Configuration.Defaults
use vestirust.Configuration.Values.{
  Value, Got, missing, Fields, no_fields, field, get, required, or_default, read_list, read_text,
  read_boolean, read_number,
}
use vestirust.Configuration.Serde.{u16_mod, read_app, read_dav, read_user, config_from, config_of}

-- The fields without those of a name.
unfoldable pub drop_field : String → Fields → Fields
drop_field name no_fields = no_fields
drop_field name (field k v rest) =
    if str_eq k name then drop_field name rest else field k v (drop_field name rest)

get-drop_field :
    (name other : String) (f : Fields)
    → get other (drop_field name f) ≡ (if str_eq name other then missing else get other f)
unfolding get drop_field
get-drop_field name other no_fields = ground arith
get-drop_field name other (field k v rest) =
    ground (arith, get-drop_field name other rest, eq_iff k name, eq_iff k other, eq_iff name other)

module _ {A : Type 0} (b : Bool) (got : Got) {a : A} (read : Value → Option A) where
  or_default-drop :
      (default : A)
      → or_default default read got ≡ some a
      → or_default default read (if b then missing else got) ≡ some (if b then default else a)
  unfolding or_default
  or_default-drop default e = elim (Bool-cases b) [ inl y ↦ rw y refl | inr n ↦ rw n e ]

  required-drop :
      required read got ≡ some a
      → required read (if b then missing else got) ≡ (if b then none else some a)
  unfolding required
  required-drop e = elim (Bool-cases b) [ inl y ↦ rw y refl | inr n ↦ rw n e ]

config_from-some :
    (o0 : Option String) (o1 : Option Bool) (o2 : Option ℕ) (o3 : Option Bool) (o4 : Option String)
    (o5 : Option (List App)) (o6 : Option (List Dav)) (o7 : Option (List User)) (c : Config)
    → config_from o0 o1 o2 o3 o4 o5 o6 o7 ≡ some c
    → (o0 ≡ some c.hostname)
      × (o1 ≡ some c.debug_mode)
      × (o2 ≡ some c.http_port)
      × (o3 ≡ some c.auto_tls)
      × (o4 ≡ some c.letsencrypt_email)
      × (o5 ≡ some c.apps)
      × (o6 ≡ some c.davs)
      × (o7 ≡ some c.users)
unfolding config_from
config_from-some none o1 o2 o3 o4 o5 o6 o7 c h = cc
config_from-some (some a0) none o2 o3 o4 o5 o6 o7 c h = cc
config_from-some (some a0) (some a1) none o3 o4 o5 o6 o7 c h = cc
config_from-some (some a0) (some a1) (some a2) none o4 o5 o6 o7 c h = cc
config_from-some (some a0) (some a1) (some a2) (some a3) none o5 o6 o7 c h = cc
config_from-some (some a0) (some a1) (some a2) (some a3) (some a4) none o6 o7 c h = cc
config_from-some (some a0) (some a1) (some a2) (some a3) (some a4) (some a5) none o7 c h = cc
config_from-some (some a0) (some a1) (some a2) (some a3) (some a4) (some a5) (some a6) none c h = cc
config_from-some (some a0) (some a1) (some a2) (some a3) (some a4) (some a5) (some a6) (some a7) c
      h =
    (
      ap (Option.map (λ r. r.hostname)) h,
      ap (Option.map (λ r. r.debug_mode)) h,
      ap (Option.map (λ r. r.http_port)) h,
      ap (Option.map (λ r. r.auto_tls)) h,
      ap (Option.map (λ r. r.letsencrypt_email)) h,
      ap (Option.map (λ r. r.apps)) h,
      ap (Option.map (λ r. r.davs)) h,
      ap (Option.map (λ r. r.users)) h,
    )

-- The configuration of a file without the fields of a name.
abbrev pub without_field : String → Config → Option Config
without_field name c =
    if str_eq name "hostname"
    then some (record c { hostname = Defaults.hostname })
    else if str_eq name "debug_mode"
    then some (record c { debug_mode = Defaults.debug_mode })
    else if str_eq name "http_port"
    then some (record c { http_port = Defaults.http_port })
    else if str_eq name "auto_tls"
    then some (record c { auto_tls = Defaults.auto_tls })
    else if str_eq name "letsencrypt_email"
    then none
    else if str_eq name "apps"
    then none
    else if str_eq name "davs"
    then none
    else if str_eq name "users"
    then none
    else some c

-- What is read where a field of a name is dropped, if the whole was read as `c`.
module _ (f : Fields) (c : Config) (h : config_of f ≡ some c) where
  was_read :
      (or_default Defaults.hostname read_text (get "hostname" f) ≡ some c.hostname)
      × (or_default Defaults.debug_mode read_boolean (get "debug_mode" f) ≡ some c.debug_mode)
      × (or_default Defaults.http_port (read_number u16_mod) (get "http_port" f) ≡ some c.http_port)
      × (or_default Defaults.auto_tls read_boolean (get "auto_tls" f) ≡ some c.auto_tls)
      × (required read_text (get "letsencrypt_email" f) ≡ some c.letsencrypt_email)
      × (required (read_list read_app) (get "apps" f) ≡ some c.apps)
      × (required (read_list read_dav) (get "davs" f) ≡ some c.davs)
      × (required (read_list read_user) (get "users" f) ≡ some c.users)
  unfolding config_of
  was_read =
      config_from-some (or_default Defaults.hostname read_text (get "hostname" f))
        (or_default Defaults.debug_mode read_boolean (get "debug_mode" f))
        (or_default Defaults.http_port (read_number u16_mod) (get "http_port" f))
        (or_default Defaults.auto_tls read_boolean (get "auto_tls" f))
        (required read_text (get "letsencrypt_email" f))
        (required (read_list read_app) (get "apps" f))
        (required (read_list read_dav) (get "davs" f))
        (required (read_list read_user) (get "users" f)) c h

  dropped :
      (name : String)
      → config_of (drop_field name f)
        ≡ config_from
            (some (if str_eq name "hostname" then Defaults.hostname else c.hostname))
            (some (if str_eq name "debug_mode" then Defaults.debug_mode else c.debug_mode))
            (some (if str_eq name "http_port" then Defaults.http_port else c.http_port))
            (some (if str_eq name "auto_tls" then Defaults.auto_tls else c.auto_tls))
            (if str_eq name "letsencrypt_email" then none else some c.letsencrypt_email)
            (if str_eq name "apps" then none else some c.apps)
            (if str_eq name "davs" then none else some c.davs)
            (if str_eq name "users" then none else some c.users)
  unfolding config_of
  dropped name =
      let (e0, e1, e2, e3, e4, e5, e6, e7) = was_read in
      rw
        (
          get-drop_field name "hostname" f,
          get-drop_field name "debug_mode" f,
          get-drop_field name "http_port" f,
          get-drop_field name "auto_tls" f,
          get-drop_field name "letsencrypt_email" f,
          get-drop_field name "apps" f,
          get-drop_field name "davs" f,
          get-drop_field name "users" f,
          or_default-drop (str_eq name "hostname") (get "hostname" f) read_text Defaults.hostname
              e0,
          or_default-drop (str_eq name "debug_mode") (get "debug_mode" f) read_boolean
              Defaults.debug_mode e1,
          or_default-drop (str_eq name "http_port") (get "http_port" f) (read_number u16_mod)
              Defaults.http_port e2,
          or_default-drop (str_eq name "auto_tls") (get "auto_tls" f) read_boolean Defaults.auto_tls
              e3,
          required-drop (str_eq name "letsencrypt_email") (get "letsencrypt_email" f) read_text e4,
          required-drop (str_eq name "apps") (get "apps" f) (read_list read_app) e5,
          required-drop (str_eq name "davs") (get "davs" f) (read_list read_dav) e6,
          required-drop (str_eq name "users") (get "users" f) (read_list read_user) e7,
        )
        refl

  -- If a file decodes, then without the fields of any name it decodes to the same with the default for
  -- that field, where the field has one; it does not decode without a field that has none; and any
  -- other field makes no difference.
  pub config_of-drop_field : (name : String) → config_of (drop_field name f) ≡ without_field name c
  unfolding config_from
  config_of-drop_field name = elim (Bool-cases (str_eq name "hostname")) [
    | inl is ↦ rw (dropped name, (eq_iff name "hostname").0 is) refl
    | inr n0 ↦ elim (Bool-cases (str_eq name "debug_mode")) [
      | inl is ↦ rw (dropped name, (eq_iff name "debug_mode").0 is) refl
      | inr n1 ↦ elim (Bool-cases (str_eq name "http_port")) [
        | inl is ↦ rw (dropped name, (eq_iff name "http_port").0 is) refl
        | inr n2 ↦ elim (Bool-cases (str_eq name "auto_tls")) [
          | inl is ↦ rw (dropped name, (eq_iff name "auto_tls").0 is) refl
          | inr n3 ↦ elim (Bool-cases (str_eq name "letsencrypt_email")) [
            | inl is ↦ rw (dropped name, (eq_iff name "letsencrypt_email").0 is) refl
            | inr n4 ↦ elim (Bool-cases (str_eq name "apps")) [
              | inl is ↦ rw (dropped name, (eq_iff name "apps").0 is) refl
              | inr n5 ↦ elim (Bool-cases (str_eq name "davs")) [
                | inl is ↦ rw (dropped name, (eq_iff name "davs").0 is) refl
                | inr n6 ↦ elim (Bool-cases (str_eq name "users")) [
                  | inl is ↦ rw (dropped name, (eq_iff name "users").0 is) refl
                  | inr n7 ↦ rw (dropped name, n0, n1, n2, n3, n4, n5, n6, n7) refl
                ]
              ]
            ]
          ]
        ]
      ]
    ]
  ]

-- ===== src/Configuration/Serde.antt =====
-- The derived `Serialize` and `Deserialize` of src/configuration.rs, src/apps.rs, src/davs/model.rs and
-- src/users.rs, with their attributes.
pub mod Laws
pub mod Missing
pub mod Storage
use vestirust.Prelude.{
  ℕ, Bool, true, false, ◌^◌, Option, none, some, String, List, str_eq, if◌then◌else◌,
}
use vestirust.Prelude.Words.{u64_mod}
use vestirust.Model.{User, App, Dav, Config}
use vestirust.Configuration.Defaults
use vestirust.Configuration.Values.{
  ◌>>=◌, Value, text, number, boolean, sequence, struct, Fields, no_fields, field, get, required,
  or_default, write_list, read_list, read_text, read_boolean, read_number,
}

abbrev texts : List String → Value
texts = write_list text

abbrev read_texts : Value → Option (List String)
read_texts = read_list read_text

-- The bounds of `u16` and of `usize`.
abbrev pub u16_mod : ℕ
u16_mod = 65536

unfoldable pub write_user : User → Value
write_user user =
    let roles = field "roles" (texts user.roles) no_fields in
    struct (
      field "login" (text user.login)
        (if str_eq user.password "" then roles else field "password" (text user.password) roles))

user_of : Fields → Option User
user_of f = do
  login ← required read_text (get "login" f)
  password ← or_default "" read_text (get "password" f)
  roles ← required read_texts (get "roles" f)
  some (record { login = login; password = password; roles = roles })

unfoldable pub read_user : Value → Option User
unfolding user_of
read_user (struct f) = user_of f
read_user _ = none

unfoldable pub write_app : App → Value
write_app a = struct (
    field "id" (number a.id) (
      field "name" (text a.name) (
        field "icon" (text a.icon) (
          field "color" (text a.color) (
            field "is_proxy" (boolean a.is_proxy) (
              field "host" (text a.host) (
                field "forward_to" (text a.forward_to) (
                  field "secured" (boolean a.secured) (
                    field "login" (text a.login) (
                      field "password" (text a.password) (
                        field "openpath" (text a.openpath)
                          (field "roles" (texts a.roles) no_fields))))))))))))

app_of : Fields → Option App
app_of f = do
  id ← required (read_number u64_mod) (get "id" f)
  name ← required read_text (get "name" f)
  icon ← required read_text (get "icon" f)
  color ← required read_text (get "color" f)
  is_proxy ← required read_boolean (get "is_proxy" f)
  host ← required read_text (get "host" f)
  forward_to ← required read_text (get "forward_to" f)
  secured ← required read_boolean (get "secured" f)
  login ← required read_text (get "login" f)
  password ← required read_text (get "password" f)
  openpath ← required read_text (get "openpath" f)
  roles ← required read_texts (get "roles" f)
  some (record {
    id = id;
    name = name;
    icon = icon;
    color = color;
    is_proxy = is_proxy;
    host = host;
    forward_to = forward_to;
    secured = secured;
    login = login;
    password = password;
    openpath = openpath;
    roles = roles;
  })

unfoldable pub read_app : Value → Option App
unfolding app_of
read_app (struct f) = app_of f
read_app _ = none

-- The key is skipped.
unfoldable pub write_dav : Dav → Value
write_dav d = struct (
    field "id" (number d.id) (
      field "host" (text d.host) (
        field "directory" (text d.directory) (
          field "writable" (boolean d.writable) (
            field "name" (text d.name) (
              field "icon" (text d.icon) (
                field "color" (text d.color) (
                  field "secured" (boolean d.secured) (
                    field "allow_symlinks" (boolean d.allow_symlinks) (
                      field "roles" (texts d.roles)
                        (field "passphrase" (text d.passphrase) no_fields)))))))))))

dav_of : Fields → Option Dav
dav_of f = do
  id ← required (read_number u64_mod) (get "id" f)
  host ← required read_text (get "host" f)
  directory ← required read_text (get "directory" f)
  writable ← required read_boolean (get "writable" f)
  name ← required read_text (get "name" f)
  icon ← required read_text (get "icon" f)
  color ← required read_text (get "color" f)
  secured ← required read_boolean (get "secured" f)
  allow_symlinks ← or_default false read_boolean (get "allow_symlinks" f)
  roles ← required read_texts (get "roles" f)
  passphrase ← required read_text (get "passphrase" f)
  some (record {
    id = id;
    host = host;
    directory = directory;
    writable = writable;
    name = name;
    icon = icon;
    color = color;
    secured = secured;
    allow_symlinks = allow_symlinks;
    roles = roles;
    passphrase = passphrase;
    key = none;
  })

unfoldable pub read_dav : Value → Option Dav
unfolding dav_of
read_dav (struct f) = dav_of f
read_dav _ = none

unfoldable pub write_config : Config → Value
write_config c = struct (
    field "hostname" (text c.hostname) (
      field "debug_mode" (boolean c.debug_mode) (
        field "http_port" (number c.http_port) (
          field "auto_tls" (boolean c.auto_tls) (
            field "letsencrypt_email" (text c.letsencrypt_email) (
              field "apps" (write_list write_app c.apps) (
                field "davs" (write_list write_dav c.davs)
                  (field "users" (write_list write_user c.users) no_fields))))))))

-- the configuration, if all its fields could be read
config_from :
    Option String
    → Option Bool
    → Option ℕ
    → Option Bool
    → Option String
    → Option (List App)
    → Option (List Dav)
    → Option (List User)
    → Option Config
config_from hostname' debug_mode' http_port' auto_tls' letsencrypt_email' apps' davs' users' = do
  hostname ← hostname'
  debug_mode ← debug_mode'
  http_port ← http_port'
  auto_tls ← auto_tls'
  letsencrypt_email ← letsencrypt_email'
  apps ← apps'
  davs ← davs'
  users ← users'
  some (record {
    hostname = hostname;
    debug_mode = debug_mode;
    http_port = http_port;
    auto_tls = auto_tls;
    letsencrypt_email = letsencrypt_email;
    apps = apps;
    davs = davs;
    users = users;
  })

unfoldable pub config_of : Fields → Option Config
unfolding config_from
config_of f =
    config_from (or_default Defaults.hostname read_text (get "hostname" f))
      (or_default Defaults.debug_mode read_boolean (get "debug_mode" f))
      (or_default Defaults.http_port (read_number u16_mod) (get "http_port" f))
      (or_default Defaults.auto_tls read_boolean (get "auto_tls" f))
      (required read_text (get "letsencrypt_email" f))
      (required (read_list read_app) (get "apps" f)) (required (read_list read_dav) (get "davs" f))
      (required (read_list read_user) (get "users" f))

unfoldable pub read_config : Value → Option Config
unfolding config_of
read_config (struct f) = config_of f
read_config _ = none

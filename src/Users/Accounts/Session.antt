-- ===== src/Users/Accounts/Session.antt =====
-- Who a cookie stands for, once `local_auth` has given it out.
use vestirust.Prelude.{
  Bool, true, false, Option, none, some, String, ◌≡◌, refl, ok, >>=-eq-ok, ok_or-eq-ok,
}
use vestirust.Prelude.Tables.{find_key}
use vestirust.Model.{User, Config}
use vestirust.Configuration.Interface.{Backend}
use vestirust.Users.Accounts.{by_login, Cookie, user_from_request, verified, local_auth}

-- An user that was encoded for the cookie decodes to itself.
pub record IsUserJson {World : Type 0} (backend : Backend World) : Type 0 where
  pub decode_user :
      (user : User) (text : String)
      → backend.user_to_json user ≡ some text
      → backend.user_from_json text ≡ some user

-- What is put into the cookie of a user.
abbrev pub without_password : User → User
without_password user = record user { password = "" }

module _ {World : Type 0} {backend : Backend World} (json : IsUserJson backend) where
  verified-ok :
      (answer : Option Bool) {checked : Unit {0}}
      → verified backend answer ≡ ok checked
      → answer ≡ some true
  unfolding verified
  verified-ok none h = cc
  verified-ok (some true) h = refl
  verified-ok (some false) h = cc

  -- A cookie is given out for the password of a user of the configuration, and the extractor of
  -- `User` reads that user from it.
  pub local_auth-user :
      (config : Config) (hostname login password : String) (cookie : Cookie)
      → local_auth backend config hostname login password ≡ ok cookie
      → (user : User) × (find_key by_login login config.users ≡ some user)
        × (backend.argon2_verify user.password password ≡ some true)
        × (user_from_request backend (some cookie.value) ≡ ok (without_password user))
  unfolding local_auth user_from_request
  local_auth-user config hostname login password cookie h =
      let (user, found, h1) = >>=-eq-ok _ _ h in
      let (checked, accepted, h2) = >>=-eq-ok _ _ h1 in
      let (encoded, e, h3) = >>=-eq-ok _ _ h2 in
      let value : cookie.value ≡ encoded = cc in
      let decoded = json.decode_user (without_password user) encoded (ok_or-eq-ok _ _ e) in
      (user, ok_or-eq-ok _ _ found, verified-ok _ accepted, rw (value, decoded) refl)

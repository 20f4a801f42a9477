-- ===== src/Users/Accounts/Login.antt =====
-- The password that a user may log in with.
use vestirust.Prelude.{
  Bool, true, false, none, some, Option, String, ◌≡◌, ◌≢◌, refl, ◌∙◌, ◌↔◌, Result, ok, ◌>>=◌,
  eq_refl,
}
use vestirust.Prelude.Tables.{find_key}
use vestirust.Model.{StatusCode, User, Config}
use vestirust.Configuration.{from_file}
use vestirust.Configuration.Interface.{Backend, IsStorage, IsPasswordHash}
use vestirust.Users.Accounts.{by_login, trim, Cookie, before_colon, verified, local_auth, add_user}
use vestirust.Users.Accounts.Laws.{StoredPassword, hashed, kept, add_user-saved}

iff_trans : {A B C : Type 0} → A ↔ B → B ↔ C → A ↔ C
iff_trans f g = (λ a. g.0 (f.0 a), λ c. f.1 (g.1 c))

module _ {World : Type 0} (backend : Backend World) where
  abbrev pub IsAccepted : Result StatusCode Cookie → Type 0
  IsAccepted answer = (cookie : Cookie) × (answer ≡ ok cookie)

  abbrev cookie_for : String → String → Cookie
  unfolding before_colon
  cookie_for hostname encoded = record {
    name = "VESTIBULE_AUTH";
    value = encoded;
    domain = before_colon hostname;
    path = "/";
    same_site = "Lax";
    secure = false;
    http_only = false;
  }

  local_auth-verified :
      (config : Config) (hostname login password encoded : String) (user : User)
      → find_key by_login login config.users ≡ some user
      → backend.user_to_json (record user { password = "" }) ≡ some encoded
      → local_auth backend config hostname login password ≡ (
          verified backend (backend.argon2_verify user.password password) >>= λ checked.
          ok (cookie_for hostname encoded))
  unfolding local_auth
  local_auth-verified config hostname login password encoded user found e =
      rw (found, local_auth, e)

  IsAccepted-verified :
      (answer : Option Bool) (cookie : Cookie)
      → IsAccepted (verified backend answer >>= λ checked. ok cookie) ↔ (answer ≡ some true)
  unfolding verified
  IsAccepted-verified none cookie = (λ (c, h). cc h, λ h. cc h)
  IsAccepted-verified (some true) cookie = (λ h. refl, λ h. (cookie, refl))
  IsAccepted-verified (some false) cookie = (λ (c, h). cc h, λ h. cc h)

module _ {World : Type 0} {backend : Backend World} (storage : IsStorage backend)
    (passwords : IsPasswordHash backend) where
  hash_accepts :
      (password salt hash other : String)
      → backend.argon2_hash password salt ≡ some hash
      → (backend.argon2_verify hash other ≡ some true) ↔ (other ≡ password)
  hash_accepts password salt hash other e = (
    passwords.verify_only password salt hash other e,
    λ p. rw p (passwords.verify_same password salt hash e),
  )

  stored_hash :
      {salt : String} {old : Option User} {payload : User} {hash : String}
      → payload.password ≢ ""
      → StoredPassword backend salt old payload hash
      → backend.argon2_hash (trim payload.password) salt ≡ some hash
  stored_hash given (hashed g e) = e
  stored_hash given (kept u o empty e) = absurd (given empty)

  -- After `add_user` stored a payload with a password and answered with a success, `local_auth` on
  -- the configuration of the file accepts exactly the trimmed password under the payload's login,
  -- whatever the host name, if the user without password can be encoded for the cookie.
  pub local_auth-add_user :
      (salt config_file : String) (config after : Config) (payload : User) (w w' : World)
      (r : StatusCode × String) (hostname password encoded : String)
      → payload.password ≢ ""
      → add_user backend salt config_file config payload w ≡ (w', ok r)
      → from_file backend w' config_file ≡ some after
      → backend.user_to_json (record payload { password = "" }) ≡ some encoded
      → IsAccepted backend (local_auth backend after hostname payload.login password)
        ↔ (password ≡ trim payload.password)
  local_auth-add_user salt config_file config after payload w w' r hostname password encoded given h
        read e =
      let (saved, found, hash, stored, users, same) =
        add_user-saved storage salt config_file config payload w w' r h in
      let same_config : after ≡ saved = cc in
      let user : User = record payload { password = hash } in
      let at_login : find_key by_login payload.login after.users ≡ some user =
        rw same_config (users payload.login ∙ rw (eq_refl payload.login)) in
      let accepts =
        hash_accepts (trim payload.password) salt hash password (stored_hash given stored) in
      rw (local_auth-verified backend after hostname payload.login password encoded user at_login e)
        (iff_trans (IsAccepted-verified backend _ _) accepts)

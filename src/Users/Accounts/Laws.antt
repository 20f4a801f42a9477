-- ===== src/Users/Accounts/Laws.antt =====
-- What the configuration file holds after a change of the users.
use vestirust.Prelude.{
  none, some, Bool-cases, Option, [], String, ◌≡◌, ◌≢◌, refl, ap, inl, inr, ok, ok_or, str_eq,
  eq_iff, ok_or, if◌then◌else◌, Option-cases, Result-cases,
}
use vestirust.Prelude.Tables.{
  find_key, replace_or_push, remove_found, IsUnique, find-replace_or_push, find-remove_found,
}
use vestirust.Model.{StatusCode, User, Config}
use vestirust.Configuration.{from_file}
use vestirust.Configuration.Interface.{Backend, IsStorage, without_keys}
use vestirust.Configuration.Laws.{from_file_saved}
use vestirust.Users.Accounts.{by_login, trim, hash_password, user_to_store, add_user, delete_user}

-- The password that is stored for a payload: the hash of the payload's, trimmed, or, where the
-- payload has none, that of the user whom it replaces.
pub data StoredPassword {World : Type 0} (backend : Backend World) (salt : String)
    (old : Option User) (payload : User) (stored : String) : Type 0 where
  hashed :
      payload.password ≢ ""
      → backend.argon2_hash (trim payload.password) salt ≡ some stored
      → StoredPassword backend salt old payload stored
  kept :
      (u : User)
      → old ≡ some u
      → payload.password ≡ ""
      → stored ≡ u.password
      → StoredPassword backend salt old payload stored

module _ {World : Type 0} (backend : Backend World) where
  hash_password-some :
      (salt : String) (payload stored : User) (refusal : StatusCode × String)
      → ok_or (hash_password backend salt payload) refusal ≡ ok stored
      → (hash : String) × (backend.argon2_hash (trim payload.password) salt ≡ some hash)
        × (stored ≡ record payload { password = hash })
  unfolding hash_password
  hash_password-some salt payload stored refusal h =
      elim (Option-cases (backend.argon2_hash (trim payload.password) salt)) [
        | inl e ↦ cc (rw (e, hash_password) at h)
        | inr (hash, e) ↦ (hash, e, cc (rw (e, hash_password) at h))
      ]

  user_to_store-ok :
      (salt : String) (old : Option User) (payload stored : User)
      → user_to_store backend salt old payload ≡ ok stored
      → (hash : String) × (stored ≡ record payload { password = hash })
        × StoredPassword backend salt old payload hash
  unfolding user_to_store
  user_to_store-ok salt (some u) payload stored h = elim (Bool-cases (str_eq payload.password "")) [
    | inl empty ↦ (u.password, cc (rw empty at h), kept u refl ((eq_iff _ _).0 empty) refl)
    | inr given ↦
        let (hash, e, s) = hash_password-some salt payload stored _ (rw given at h) in
        (hash, s, hashed (λ p. cc ((eq_iff _ _).1 p)) e)
  ]
  user_to_store-ok salt none payload stored h = elim (Bool-cases (str_eq payload.password "")) [
    | inl empty ↦ cc (rw empty at h)
    | inr given ↦
        let (hash, e, s) = hash_password-some salt payload stored _ (rw given at h) in
        (hash, s, hashed (λ p. cc ((eq_iff _ _).1 p)) e)
  ]

module _ {World : Type 0} {backend : Backend World} (storage : IsStorage backend) where
  -- After `add_user` answered with a success, the file holds a configuration in which the payload,
  -- with its stored password, stands under its login, every other login has the user that it had,
  -- and the rest is unchanged but for the keys of the davs. The stored password is the hash of the
  -- trimmed payload's, or, where that is empty, the one that was stored before.
  pub add_user-saved :
      (salt config_file : String) (config : Config) (payload : User) (w w' : World)
      (r : StatusCode × String)
      → add_user backend salt config_file config payload w ≡ (w', ok r)
      → (after : Config) × (from_file backend w' config_file ≡ some after)
        × (hash : String) × StoredPassword backend salt
            (find_key by_login payload.login config.users)
            payload
            hash
        × ((login : String)
            → find_key by_login login after.users ≡ (
                if str_eq payload.login login
                then some (record payload { password = hash })
                else find_key by_login login config.users))
        × (record after { users = [] } ≡ record (without_keys config) { users = [] })
  unfolding add_user
  add_user-saved salt config_file config payload w w' r h =
      elim (Result-cases
        (user_to_store backend salt (find_key by_login payload.login config.users) payload)) [
          | inr (refusal, e) ↦ cc (ap (λ t. t.1) (rw (e, add_user) at h))
          | inl (user, e) ↦
              let (hash, stored, password) = user_to_store-ok backend salt _ payload user e in
              (
                _,
                from_file_saved storage
                    (record config { users = replace_or_push by_login user config.users })
                    config_file _ r w w' (rw (e, add_user) at h),
                hash,
                password,
                λ login. rw stored (find-replace_or_push by_login login _ config.users),
                refl,
              )
        ]

  -- After `delete_user` answered with a success, if the logins were unique, the file holds a
  -- configuration in which the login has no user, every other login has the user that it had, and
  -- the rest is unchanged but for the keys of the davs.
  pub delete_user-saved :
      (config_file : String) (config : Config) (user_login : String) (w w' : World)
      (r : StatusCode × String)
      → IsUnique by_login config.users
      → delete_user backend config_file config user_login w ≡ (w', ok r)
      → (after : Config) × (from_file backend w' config_file ≡ some after)
        × ((login : String)
            → find_key by_login login after.users
              ≡ (if str_eq user_login login then none else find_key by_login login config.users))
        × (record after { users = [] } ≡ record (without_keys config) { users = [] })
  unfolding delete_user
  delete_user-saved config_file config user_login w w' r u h =
      elim (Option-cases (remove_found by_login user_login config.users)) [
        | inl e ↦ cc (ap (λ t. t.1) (rw (e, delete_user) at h))
        | inr (users, e) ↦ (
          _,
          from_file_saved storage (record config { users = users }) config_file _ r w w'
              (rw (e, delete_user) at h),
          λ login. find-remove_found by_login login user_login config.users u e,
          refl,
        )
      ]

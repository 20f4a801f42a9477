-- ===== src/Server/Admin/Promises.antt =====
-- What the admin routes promise: the configuration of the file is three tables, and each request that
-- is answered with a success changes one key of one of them, or nothing.
use mathlib.Core.Option
use vestirust.Prelude.{
  ℕ, none, some, Option, [], String, ◌≡◌, refl, ap, ok, err, ◌==◌, str_eq, if◌then◌else◌, inl, inr,
  Result-cases,
}
use vestirust.Prelude.Tables.{find_key}
use vestirust.Model.{StatusCode, Config}
use vestirust.Configuration.{from_file}
use vestirust.Configuration.Interface.{Backend, IsStorage, without_key, without_keys}
use vestirust.Users.Accounts.{by_login, admin_from_request}
use vestirust.Users.Accounts.Laws.{StoredPassword, add_user-saved, delete_user-saved}
use vestirust.Apps
use vestirust.Apps.Laws.{add_app-saved, delete_app-saved}
use vestirust.Davs.Model
use vestirust.Davs.Model.Laws.{add_dav-saved, delete_dav-saved}
use vestirust.Server.Admin.{
  AdminRequest, get_users, get_apps, get_davs, add_user, add_app, add_dav, delete_user, delete_app,
  delete_dav, admin_handler, admin_router,
}
use vestirust.Server.Admin.Keys.{HasUniqueKeys, Writes}

-- All but the users, the apps or the davs is as before, but for the keys of the davs, which no file
-- holds.
abbrev pub SameButUsers : Config → Config → Type 0
SameButUsers before after =
    record after { users = [] } ≡ record (without_keys before) { users = [] }

abbrev pub SameButApps : Config → Config → Type 0
SameButApps before after = record after { apps = [] } ≡ record (without_keys before) { apps = [] }

abbrev pub SameButDavs : Config → Config → Type 0
SameButDavs before after = record after { davs = [] } ≡ record (without_keys before) { davs = [] }

module _ {World : Type 0} (backend : Backend World) (salt : String) where
  -- The file's configurations before and after a request that is answered with a success.
  abbrev pub Promised : AdminRequest → Config → Config → Type 0
  Promised get_users before after = after ≡ before
  Promised get_apps before after = after ≡ before
  Promised get_davs before after = after ≡ before
  Promised (add_user (ok user)) before after =
      (hash : String) × StoredPassword backend salt (find_key by_login user.login before.users) user
        hash
      × ((login : String)
          → find_key by_login login after.users ≡ (
              if str_eq user.login login
              then some (record user { password = hash })
              else find_key by_login login before.users))
      × SameButUsers before after
  Promised (add_app (ok payload)) before after =
      ((id : ℕ)
        → find_key Apps.by_id id after.apps
          ≡ (if payload.id == id then some payload else find_key Apps.by_id id before.apps))
      × SameButApps before after
  Promised (add_dav (ok payload)) before after =
      ((id : ℕ)
        → find_key Model.by_id id after.davs ≡ (
            if payload.id == id
            then some (without_key payload)
            else Option.map without_key (find_key Model.by_id id before.davs)))
      × SameButDavs before after
  Promised (delete_user (ok gone)) before after =
      ((login : String)
        → find_key by_login login after.users
          ≡ (if str_eq gone login then none else find_key by_login login before.users))
      × SameButUsers before after
  Promised (delete_app (ok gone)) before after =
      ((id : ℕ)
        → find_key Apps.by_id id after.apps
          ≡ (if gone == id then none else find_key Apps.by_id id before.apps))
      × SameButApps before after
  Promised (delete_dav (ok gone)) before after =
      ((id : ℕ)
        → find_key Model.by_id id after.davs ≡ (
            if gone == id
            then none
            else Option.map without_key (find_key Model.by_id id before.davs)))
      × SameButDavs before after
  Promised _ before after = ⊥

repacked :
    {A : Type 0} {P Q R : A → Type 0} → (a : A) × P a × Q a × R a → (a : A) × P a × (Q a × R a)
repacked (a, p, q, r) = (a, p, (q, r))

module _ {World : Type 0} {backend : Backend World} (storage : IsStorage backend)
    (salt config_file : String) where
  -- The file holds a configuration that keeps the promise.
  abbrev pub Keeps : AdminRequest → Config → World → Type 0
  Keeps request before w' =
      (after : Config) × (from_file backend w' config_file ≡ some after)
      × Promised backend salt request before after

  -- A request that writes keeps its promise whatever the file holds by then.
  pub Writes-Keeps :
      (before : Config) (request : AdminRequest) (w w' : World) (r : StatusCode × String)
      → Writes request
      → HasUniqueKeys before
      → admin_handler backend salt config_file before request w ≡ (w', ok r)
      → Keeps request before w'
  unfolding admin_handler
  Writes-Keeps before get_users w w' r writes u h = cc
  Writes-Keeps before get_apps w w' r writes u h = cc
  Writes-Keeps before get_davs w w' r writes u h = cc
  Writes-Keeps before (add_user (ok user)) w w' r writes u h =
      let (after, now, hash, stored, users, rest) =
        add_user-saved storage salt config_file before user w w' r h in
      (after, now, (hash, stored, users, rest))
  Writes-Keeps before (add_app (ok payload)) w w' r writes u h =
      repacked (add_app-saved storage config_file before payload w w' r h)
  Writes-Keeps before (add_dav (ok payload)) w w' r writes u h =
      repacked (add_dav-saved storage config_file before payload w w' r h)
  Writes-Keeps before (delete_user (ok login)) w w' r writes u h =
      repacked (delete_user-saved storage config_file before login w w' r u.users h)
  Writes-Keeps before (delete_app (ok id)) w w' r writes u h =
      repacked (delete_app-saved storage config_file before id w w' r u.apps h)
  Writes-Keeps before (delete_dav (ok id)) w w' r writes u h =
      repacked (delete_dav-saved storage config_file before id w w' r u.davs h)
  Writes-Keeps before (add_user (err e)) w w' r writes u h = cc (ap (λ t. t.1) h)
  Writes-Keeps before (add_app (err e)) w w' r writes u h = cc (ap (λ t. t.1) h)
  Writes-Keeps before (add_dav (err e)) w w' r writes u h = cc (ap (λ t. t.1) h)
  Writes-Keeps before (delete_user (err e)) w w' r writes u h = cc (ap (λ t. t.1) h)
  Writes-Keeps before (delete_app (err e)) w w' r writes u h = cc (ap (λ t. t.1) h)
  Writes-Keeps before (delete_dav (err e)) w w' r writes u h = cc (ap (λ t. t.1) h)

  admin_handler-Keeps :
      (before : Config) (request : AdminRequest) (w w' : World) (r : StatusCode × String)
      → from_file backend w config_file ≡ some before
      → HasUniqueKeys before
      → admin_handler backend salt config_file before request w ≡ (w', ok r)
      → Keeps request before w'
  unfolding admin_handler
  admin_handler-Keeps before get_users w w' r read u h = (before, rw (← ap (λ t. t.0) h) read, refl)
  admin_handler-Keeps before get_apps w w' r read u h = (before, rw (← ap (λ t. t.0) h) read, refl)
  admin_handler-Keeps before get_davs w w' r read u h = (before, rw (← ap (λ t. t.0) h) read, refl)
  admin_handler-Keeps before (add_user x) w w' r read u h =
      Writes-Keeps before (add_user x) w w' r refl u h
  admin_handler-Keeps before (add_app x) w w' r read u h =
      Writes-Keeps before (add_app x) w w' r refl u h
  admin_handler-Keeps before (add_dav x) w w' r read u h =
      Writes-Keeps before (add_dav x) w w' r refl u h
  admin_handler-Keeps before (delete_user x) w w' r read u h =
      Writes-Keeps before (delete_user x) w w' r refl u h
  admin_handler-Keeps before (delete_app x) w w' r read u h =
      Writes-Keeps before (delete_app x) w w' r refl u h
  admin_handler-Keeps before (delete_dav x) w w' r read u h =
      Writes-Keeps before (delete_dav x) w w' r refl u h

  -- If the file holds a configuration with unique keys, then after an admin request that is answered
  -- with a success it holds one that is what the request promises: a get changes nothing, an add puts
  -- its payload under the payload's key, with the stored password where it is a user, a delete takes
  -- away its key, and all other keys and all else is as before, but for the keys of the davs, which
  -- no file holds.
  pub admin_router-Keeps :
      (before : Config) (cookie : Option String) (request : AdminRequest) (w w' : World)
      (r : StatusCode × String)
      → from_file backend w config_file ≡ some before
      → HasUniqueKeys before
      → admin_router backend salt config_file cookie request w ≡ (w', ok r)
      → Keeps request before w'
  unfolding admin_router
  admin_router-Keeps before cookie request w w' r read u h =
      elim (Result-cases (admin_from_request backend cookie)) [
        | inl (admin, e) ↦
            admin_handler-Keeps before request w w' r read u (rw (read, admin_router, e) at h)
        | inr (status, e) ↦ cc (ap (λ t. t.1) (rw (read, admin_router, e) at h))
      ]

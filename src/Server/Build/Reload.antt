-- ===== src/Server/Build/Reload.antt =====
-- What a change of the davs makes of the servers that are built after it.
use mathlib.Core.Option
use vestirust.Prelude.{
  ℕ, Option, some, String, List, ◌≡◌, ◌≢◌, ◌⊎◌, refl, sym, ap, ◌∙◌, ok, inl, inr, In, Bool-cases,
  ◌==◌, eq→==, arith,
}
use vestirust.Prelude.Tables.{find_key}
use vestirust.Prelude.Tables.Members.{find_key-In, In-find_key}
use vestirust.Model.{StatusCode, Dav, dav, Config}
use vestirust.Configuration.{from_file}
use vestirust.Configuration.Interface.{Backend, IsStorage, without_key}
use vestirust.Configuration.Services.{
  given_host, UriApi, service_host, with_key, config_map, host_type_from_request,
}
use vestirust.Configuration.Services.Davs.{host_type_from_request-only, host_type_from_request-dav}
use vestirust.Davs.Model.{by_id}
use vestirust.Server.Admin.{AdminRequest, admin_router}
use vestirust.Server.Admin.Keys.{HasUniqueKeys, admin_router-HoldsUniqueKeys}
use vestirust.Server.Admin.Promises.{Promised, admin_router-Keeps}
use vestirust.Server.Website.{Server}
use vestirust.Server.Build.{loaded, build}
use vestirust.Server.Build.Read.{built_from}

-- A dav of the configuration after an addition is the one that was added, or has the host name of
-- another one of before.
added_or_before :
    {World : Type 0} (backend : Backend World) (salt : String) (before after : Config)
    (payload e : Dav)
    → HasUniqueKeys after
    → Promised backend salt (AdminRequest.add_dav (ok payload)) before after
    → In e after.davs
    → (e ≡ without_key payload)
      ⊎ ((b : Dav) × In b before.davs × (b.host ≡ e.host) × (b.id ≢ payload.id))
added_or_before backend salt before after payload e u (davs, rest) m =
    let found = sym (davs e.id) ∙ In-find_key by_id e after.davs u.davs m in
    elim (Bool-cases (payload.id == e.id)) [
      | inl same ↦ inl (cc (rw same at found))
      | inr other ↦
          let (b, old, is) =
            (Option.map-eq-some_iff without_key (find_key by_id e.id before.davs) {b = e}).0
              (rw other at found) in
          let (member, id) = find_key-In by_id e.id b before.davs old in
          inr (b, member, ap (λ (d : Dav). d.host) is, λ p. cc (eq→== payload.id e.id (sym p ∙ id)))
    ]

with_key-id :
    {A : Type 0} {B : Type 0} (uris : UriApi A B) (sha256 : String → List ℕ) (d : Dav)
    → (with_key uris sha256 d).id ≡ d.id
unfolding with_key
with_key-id uris sha256 d = ground arith

module _ {World : Type 0} {backend : Backend World} (storage : IsStorage backend)
    (salt config_file : String) {Authority Uri : Type 0} (uris : UriApi Authority Uri)
    (sha256 : String → List ℕ) {Key : Type 0} where
  -- A server that is built after an admin request has the services of a configuration that is what
  -- the request promises.
  rebuilt :
      (before : Config) (cookie : Option String) (request : AdminRequest) (w w' : World)
      (r : StatusCode × String) (key : Key) (server : Server Key Authority Uri)
      → from_file backend w config_file ≡ some before
      → HasUniqueKeys before
      → admin_router backend salt config_file cookie request w ≡ (w', ok r)
      → build backend uris sha256 config_file key w' ≡ loaded server
      → (after : Config) × (config_map uris sha256 after ≡ some server.config_map)
        × HasUniqueKeys after
        × Promised backend salt request before after
  rebuilt before cookie request w w' r key server read u h built =
      let (after, now, promised) =
        admin_router-Keeps storage salt config_file before cookie request w w' r read u h in
      let (kept, now', u') =
        admin_router-HoldsUniqueKeys storage salt config_file cookie request w w' r
          (before, read, u) h in
      let (config, now'', services, port) =
        built_from backend uris sha256 config_file key w' server built in
      let same : kept ≡ after = cc in
      let again : config ≡ after = cc in (after, rw (← again) services, rw (← same) u', promised)

  -- Where the file holds a configuration with unique keys and an admin adds a dav whose host name no
  -- dav with another id has: each server that is built from the file after that leads this host name
  -- to the dav, with the key for its passphrase.
  pub added-reached :
      (before : Config) (cookie : Option String) (payload : Dav) (w w' : World)
      (r : StatusCode × String) (key : Key) (server : Server Key Authority Uri)
      → from_file backend w config_file ≡ some before
      → HasUniqueKeys before
      → ((b : Dav)
          → In b before.davs
          → service_host b.host before.hostname ≡ service_host payload.host before.hostname
          → b.id ≡ payload.id)
      → admin_router backend salt config_file cookie (AdminRequest.add_dav (ok payload)) w
        ≡ (w', ok r)
      → build backend uris sha256 config_file key w' ≡ loaded server
      → host_type_from_request server.config_map
          (given_host (service_host payload.host before.hostname))
        ≡ ok (dav (with_key uris sha256 (without_key payload)))
  added-reached before cookie payload w w' r key server read u alone h built =
      let request = AdminRequest.add_dav (ok payload) in
      let (after, services, v, promised) =
        rebuilt before cookie request w w' r key server read u h built in
      let found : find_key by_id payload.id after.davs ≡ some (without_key payload) =
        promised.0 payload.id ∙ rw (eq→== payload.id payload.id refl) refl in
      let hostname : after.hostname ≡ before.hostname =
        ap (λ (c : Config). c.hostname) promised.1 in
      rw (← hostname) (
        host_type_from_request-only uris sha256 after server.config_map services
          (without_key payload) (find_key-In by_id payload.id _ after.davs found).0
          λ e m same. elim (added_or_before backend salt before after payload e v promised m) [
            | inl is ↦ is
            | inr (b, member, host, other) ↦ absurd (
                other (
                  alone b member (
                    ap (λ (t : String). service_host t before.hostname) host
                    ∙ (rw hostname at same))))
          ])

  -- Where the file holds a configuration with unique keys and an admin deletes a dav: no server that
  -- is built from the file after that leads any host name to a dav with its id.
  pub deleted-unreached :
      (before : Config) (cookie : Option String) (gone : ℕ) (w w' : World) (r : StatusCode × String)
      (key : Key) (server : Server Key Authority Uri) (host : String) (d : Dav)
      → from_file backend w config_file ≡ some before
      → HasUniqueKeys before
      → admin_router backend salt config_file cookie (AdminRequest.delete_dav (ok gone)) w
        ≡ (w', ok r)
      → build backend uris sha256 config_file key w' ≡ loaded server
      → host_type_from_request server.config_map (given_host host) ≡ ok (dav d)
      → d.id ≢ gone
  deleted-unreached before cookie gone w w' r key server host d read u h built reached p =
      let request = AdminRequest.delete_dav (ok gone) in
      let (after, services, v, promised) =
        rebuilt before cookie request w w' r key server read u h built in
      let (e, m, same, is) =
        host_type_from_request-dav uris sha256 after server.config_map services host d reached in
      let id : e.id ≡ gone = sym (ap (λ (x : Dav). x.id) is ∙ with_key-id uris sha256 e) ∙ p in
      let found = sym (promised.0 e.id) ∙ In-find_key by_id e after.davs v.davs m in
      cc (rw (eq→== gone e.id (sym id)) at found)

-- ===== src/Server/Routing/Guard.antt =====
-- What the router lets through.
use vestirust.Prelude.{ℕ, Option, some, String, List, ◌≡◌, ◌⊎◌, refl, ap, ok, err, inl, inr}
use vestirust.Model.{StatusCode, User, HostType, app, dav}
use vestirust.Users.Authorization.{check_authorization}
use vestirust.Users.Authorization.Laws.{MayUse, check_authorization_iff}
use vestirust.Configuration.Services.{Service, host_rejected, host_panicked, host_type_from_request}
use vestirust.Apps.Proxy.{HttpApi, HttpRequest, HttpResponse, answered, proxy_handler}
use vestirust.Davs.EncryptedStreamer.Cipher.{StreamCipher}
use vestirust.Davs.Streamer.{ReadSize}
use vestirust.Davs.Webdav.PathItem.{Libraries}
use vestirust.Davs.Webdav.FileSystem.{FileSystem}
use vestirust.Davs.Webdav.Upload.{Chance}
use vestirust.Davs.Webdav.SendFile.{Texts}
use vestirust.Davs.Webdav.Dispatch.{Request}
use vestirust.Davs.Handler.{webdav_handler}
use vestirust.Server.Routing.{
  Reply, from_proxy, from_webdav, from_website, panicked_at_host, Parties, reply, to_proxy,
  to_webdav, dispatch, route,
}

module _ {Authority Uri Query Value World : Type 0} (http_api : HttpApi Authority Uri Query Value)
    (client : String → HttpRequest Uri Value → World → World × Option (HttpResponse Value)) where
  proxy_handler-forbidden :
      (user : Option User) (service : HostType Authority Uri) (req : HttpRequest Uri Value)
      (w : World)
      → check_authorization service user ≡ some StatusCode.forbidden
      → proxy_handler http_api client user service req w ≡ (w, ok (answered StatusCode.forbidden))
  unfolding proxy_handler
  proxy_handler-forbidden user service req w e = rw (e, proxy_handler) refl

module _ {Encryptor Decryptor : Type 0} (cipher : StreamCipher Encryptor Decryptor)
    (read_size : ReadSize) (texts : Texts) (libraries : Libraries) (fuel : ℕ) (chance : Chance)
    {World : Type 0} (fs : FileSystem World) {Authority Uri : Type 0} where
  webdav_handler-forbidden :
      (user : Option User) (service : HostType Authority Uri) (req : Request) (w : World)
      → check_authorization service user ≡ some StatusCode.forbidden
      → webdav_handler cipher read_size texts libraries fuel chance fs user service req w
        ≡ (w, ok (answered StatusCode.forbidden))
  unfolding webdav_handler
  webdav_handler-forbidden user service req w e = rw (e, webdav_handler) refl

-- The answer of a handler that refuses, for the service's kind.
abbrev pub forbidden_reply :
    {Authority Uri Value Page : Type 0} → HostType Authority Uri → Reply Value Page
forbidden_reply (app target) = from_proxy (ok (answered StatusCode.forbidden))
forbidden_reply (dav d) = from_webdav (ok (answered StatusCode.forbidden))

module _ {Encryptor Decryptor : Type 0} (cipher : StreamCipher Encryptor Decryptor)
    (read_size : ReadSize) (texts : Texts) (libraries : Libraries) (fuel : ℕ) (chance : Chance)
    {Authority Uri Query Value Page World : Type 0}
    (parties : Parties Authority Uri Query Value Page World)
    (services : List (Service Authority Uri)) (req : HttpRequest Uri Value) where
  forbidden :
      (service : HostType Authority Uri) (w : World)
      → check_authorization service (parties.user req) ≡ some StatusCode.forbidden
      → dispatch cipher read_size texts libraries fuel chance parties services req
          (ok service)
          (ok service)
          w
        ≡ (w, forbidden_reply service)
  unfolding dispatch to_proxy to_webdav reply
  forbidden (app target) w e =
      ap (reply cipher read_size texts libraries fuel chance parties services req from_proxy) (
        proxy_handler-forbidden parties.http_api parties.client (parties.user req) (app target) req
          w e)
  forbidden (dav d) w e =
      ap (reply cipher read_size texts libraries fuel chance parties services req from_webdav) (
        webdav_handler-forbidden cipher read_size texts libraries fuel chance parties.fs
          (parties.user req) (dav d) (parties.read req) w e)

  -- A request for a service that its user may not use is answered with 403 by the service's handler,
  -- without a call of the proxy's target, without a change of the files, and whatever the request is.
  pub route-MayUse :
      (service : HostType Authority Uri) (w : World)
      → host_type_from_request services (parties.host req) ≡ ok service
      → (route cipher read_size texts libraries fuel chance parties services req w
          ≡ (w, forbidden_reply service))
        ⊎ MayUse service (parties.user req)
  unfolding route
  route-MayUse service w found = elim (check_authorization_iff service (parties.user req)).1 [
    | inl e ↦ inr ((check_authorization_iff service (parties.user req)).0.0 e)
    | inr e ↦ inl (rw found (forbidden service w e))
  ]

  -- A request for a host without a service gets what the website gives.
  pub route-website :
      (status : StatusCode) (w : World)
      → host_type_from_request services (parties.host req) ≡ err (host_rejected status)
      → ((route cipher read_size texts libraries fuel chance parties services req w).0
          ≡ (parties.website req w).0)
        × ((route cipher read_size texts libraries fuel chance parties services req w).1
            ≡ from_website (parties.website req w).1)
  unfolding route dispatch reply
  route-website status w found = rw found (refl, refl)

  -- A request whose header `Host` cannot be read makes the router panic.
  pub route-panicked :
      (w : World)
      → host_type_from_request services (parties.host req) ≡ err host_panicked
      → route cipher read_size texts libraries fuel chance parties services req w
        ≡ (w, panicked_at_host)
  unfolding route dispatch
  route-panicked w found = rw found refl

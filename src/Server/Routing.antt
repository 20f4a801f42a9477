-- ===== src/Server/Routing.antt =====
-- src/server.rs: which service answers a request. The router finds the service of the request's host
-- name, and the handler that it calls finds it again, in the same request and the same map.
pub mod Guard
use vestirust.Prelude.{ℕ, Option, none, some, String, List, Result, ok, err}
use vestirust.Model.{StatusCode, User, HostType, app, dav}
use vestirust.Configuration.Services.{
  HostHeader, HostFault, host_rejected, host_panicked, Service, host_type_from_request,
}
use vestirust.Apps.Proxy.{HttpApi, HttpRequest, HttpResponse, Panic, Handled, proxy_handler}
use vestirust.Davs.EncryptedStreamer.Cipher.{StreamCipher}
use vestirust.Davs.Streamer.{ReadSize}
use vestirust.Davs.Webdav.FileSystem.{FileSystem}
use vestirust.Davs.Webdav.PathItem.{Libraries}
use vestirust.Davs.Webdav.Upload.{Chance}
use vestirust.Davs.Webdav.SendFile.{Texts}
use vestirust.Davs.Webdav.Dispatch.{Request, Answer}
use vestirust.Davs.Handler.{webdav_handler}

-- Who answers, and what: `refused` is an extractor that fails before the handler runs, and
-- `panicked_at_host` one that panics.
pub data Reply (Value Page : Type 0) : Type 0 where
  from_proxy : Result Panic (Handled (HttpResponse Value)) → Reply Value Page
  from_webdav : Result Panic (Handled Answer) → Reply Value Page
  refused : Reply Value Page
  from_website : Page → Reply Value Page
  panicked_at_host : Reply Value Page

-- What a request meets: the proxy's client and the website, which both may change the world, the
-- file system, the user that its cookie names, its header `Host`, and what the webdav server reads of it.
pub record Parties (Authority Uri Query Value Page World : Type 0) : Type 0 where
  pub http_api : HttpApi Authority Uri Query Value
  pub client : String → HttpRequest Uri Value → World → World × Option (HttpResponse Value)
  pub website : HttpRequest Uri Value → World → World × Page
  pub fs : FileSystem World
  pub user : HttpRequest Uri Value → Option User
  pub host : HttpRequest Uri Value → HostHeader
  pub read : HttpRequest Uri Value → Request

module _ {Encryptor Decryptor : Type 0} (cipher : StreamCipher Encryptor Decryptor)
    (read_size : ReadSize) (texts : Texts) (libraries : Libraries) (fuel : ℕ) (chance : Chance)
    {Authority Uri Query Value Page World : Type 0}
    (parties : Parties Authority Uri Query Value Page World)
    (services : List (Service Authority Uri)) (req : HttpRequest Uri Value) where
  reply : {A : Type 0} → (A → Reply Value Page) → World × A → World × Reply Value Page
  reply f (w, a) = (w, f a)

  -- `proxy_router` and `webdav_router`, where the extractor `HostType` runs again
  to_proxy : Result HostFault (HostType Authority Uri) → World → World × Reply Value Page
  unfolding reply
  to_proxy (err (host_rejected status)) w = (w, refused)
  to_proxy (err host_panicked) w = (w, panicked_at_host)
  to_proxy (ok service) w =
      reply from_proxy
        (proxy_handler parties.http_api parties.client (parties.user req) service req w)

  to_webdav : Result HostFault (HostType Authority Uri) → World → World × Reply Value Page
  unfolding reply
  to_webdav (err (host_rejected status)) w = (w, refused)
  to_webdav (err host_panicked) w = (w, panicked_at_host)
  to_webdav (ok service) w = reply from_webdav (
      webdav_handler cipher read_size texts libraries fuel chance parties.fs (parties.user req)
        service (parties.read req) w)

  -- from the service that the router finds, and from what its handler finds
  dispatch :
      Result HostFault (HostType Authority Uri)
      → Result HostFault (HostType Authority Uri)
      → World
      → World × Reply Value Page
  unfolding to_proxy to_webdav reply
  dispatch (ok (app target)) again w = to_proxy again w
  dispatch (ok (dav d)) again w = to_webdav again w
  dispatch (err (host_rejected status)) again w = reply from_website (parties.website req w)
  dispatch (err host_panicked) again w = (w, panicked_at_host)

  unfoldable pub route : World → World × Reply Value Page
  unfolding dispatch
  route w = let found = host_type_from_request services (parties.host req) in dispatch found found w

-- ===== src/Server/Build/Strangers.antt =====
-- What a built server does for a request that nobody has logged in for.
use vestirust.Prelude.{ℕ, true, Option, none, String, ◌≡◌, refl, ap, ◌∙◌, Result, ok, err, inl, inr}
use vestirust.Model.{User, HostType, secured}
use vestirust.Configuration.Interface.{Backend}
use vestirust.Configuration.Services.{
  HostFault, host_rejected, host_panicked, host_type_from_request,
}
use vestirust.Users.Accounts.{user_from_request}
use vestirust.Users.Authorization.Laws.{MayUse, unsecured, by_role}
use vestirust.Davs.EncryptedStreamer.Cipher.{StreamCipher}
use vestirust.Davs.Streamer.{ReadSize}
use vestirust.Davs.Webdav.PathItem.{Libraries}
use vestirust.Davs.Webdav.Upload.{Chance}
use vestirust.Davs.Webdav.SendFile.{Texts}
use vestirust.Apps.Proxy.{HttpRequest}
use vestirust.Server.Admin.Guard.{IsAdminCookie}
use vestirust.Server.Routes.{find_route, website_router}
use vestirust.Server.Website.{WebRequest, WebApi, WebReply, Server, cookie_value}
use vestirust.Server.Website.Guard.{IsGuarded, website-IsGuarded}
use vestirust.Server.Routing.{Reply, from_website, panicked_at_host}
use vestirust.Server.Routing.Guard.{forbidden_reply, route-MayUse, route-website, route-panicked}
use vestirust.Server.Build.{Surroundings, parties_of, handle}

module _ {Authority Uri : Type 0} where
  -- The host has a service that is secured, or no service, or its header cannot be read.
  abbrev pub IsClosed : Result HostFault (HostType Authority Uri) → Type 0
  IsClosed (ok service) = secured service ≡ true
  IsClosed (err fault) = Unit

module _ {World : Type 0} (backend : Backend World) {Key : Type 0} (web_api : WebApi Key)
    {Authority Uri Query Value : Type 0} (around : Surroundings Authority Uri Query Value World)
    (receivers : ℕ) (salt : String) (server : Server Key Authority Uri) where
  -- The answer of a service that refuses, one of the website that is as for any request without the
  -- cookie of an admin, or a panic of the router at the header.
  abbrev pub IsShut :
      Result HostFault (HostType Authority Uri) → WebRequest → Reply Value WebReply → Type 0
  IsShut (ok service) req r = r ≡ forbidden_reply service
  IsShut (err host_panicked) req r = r ≡ panicked_at_host
  IsShut (err (host_rejected status)) req r =
      (page : WebReply) × (r ≡ from_website page)
      × IsGuarded backend receivers (find_route web_api.router req.method req.path website_router)
          page

  module _ (req : HttpRequest Uri Value) (w : World)
      (nobody : cookie_value backend web_api server (around.web req).cookie ≡ none) where
    no_user : (parties_of backend web_api around receivers salt server).user req ≡ none
    unfolding user_from_request
    no_user = rw nobody refl

    no_admin : ¬ IsAdminCookie backend (cookie_value backend web_api server (around.web req).cookie)
    no_admin (text, user, is_text, parsed, admin) = cc

    not-MayUse :
        (service : HostType Authority Uri) (user : Option User)
        → secured service ≡ true
        → user ≡ none
        → ¬ MayUse service user
    not-MayUse service user closed nobody' (unsecured e) = cc
    not-MayUse service user closed nobody' (by_role u e shared) = cc

    module _ {Encryptor Decryptor : Type 0} (cipher : StreamCipher Encryptor Decryptor)
        (read_size : ReadSize) (texts : Texts) (libraries : Libraries) (fuel : ℕ)
        (chance : Chance) where
      shut :
          (found : Result HostFault (HostType Authority Uri))
          → host_type_from_request server.config_map (around.host req) ≡ found
          → IsClosed found
          → ((handle backend web_api around receivers salt server cipher read_size texts libraries
                fuel chance req w).0
              ≡ w)
            × IsShut found
                (around.web req)
                (handle backend web_api around receivers salt server cipher read_size texts
                  libraries fuel chance req w).1
      unfolding handle
      shut (ok service) e closed =
          elim (route-MayUse cipher read_size texts libraries fuel chance
            (parties_of backend web_api around receivers salt server) server.config_map req service
            w e) [
              | inl refused ↦ (ap (λ t. t.0) refused, ap (λ t. t.1) refused)
              | inr may ↦ absurd (not-MayUse service _ closed no_user may)
            ]
      shut (err host_panicked) e closed =
          let panic =
            route-panicked cipher read_size texts libraries fuel chance
              (parties_of backend web_api around receivers salt server) server.config_map req w e in
          (ap (λ t. t.0) panic, ap (λ t. t.1) panic)
      shut (err (host_rejected status)) e closed =
          let (same, guarded) =
            website-IsGuarded backend web_api server receivers salt (around.web req) w no_admin in
          let (world, page) =
            route-website cipher read_size texts libraries fuel chance
              (parties_of backend web_api around receivers salt server) server.config_map req status
              w e in
          (world ∙ same, (_, page, guarded))

      -- A request to a built server with no cookie that reads with its key, for a host whose service
      -- is secured or that has no service, or with a header `Host` that cannot be read, leaves the files
      -- as they were: the router panics at the header, or the service answers with 403, or the website refuses it wherever it wants an admin, with 401 or 500. Only for a host
      -- without a service can it send a reload: it does where it leads to /reload of the website and
      -- anyone has subscribed to the reloads.
      pub handle-nobody :
          IsClosed (host_type_from_request server.config_map (around.host req))
          → ((handle backend web_api around receivers salt server cipher read_size texts libraries
                fuel chance req w).0
              ≡ w)
            × IsShut
                (host_type_from_request server.config_map (around.host req))
                (around.web req)
                (handle backend web_api around receivers salt server cipher read_size texts
                  libraries fuel chance req w).1
      handle-nobody closed = shut _ refl closed

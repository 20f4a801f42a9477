-- ===== src/Server/Website/Guard.antt =====
-- What the website does for a request without the cookie of an admin.
use vestirust.Prelude.{
  ℕ, Bool, true, false, not, ◌&&◌, ◌==◌, String, Result, ok, err, ◌≡◌, refl, inl, inr, Bool-cases,
  if◌then◌else◌,
}
use vestirust.Model.{StatusCode, User}
use vestirust.Users.Accounts.{Cookie}
use vestirust.Configuration.Interface.{Backend}
use vestirust.Server.Admin.{AdminRequest}
use vestirust.Server.Admin.Guard.{IsAdminCookie, IsRejection, admin_router-guarded}
use vestirust.Server.Routes.{
  Endpoint, reload, local_auth, website_handler, list_services, for_admin, Found, path_not_found,
  method_not_allowed, found, find_route, website_router,
}
use vestirust.Server.Website.{
  WebRequest, WebApi, WebReply, panicked, reload_sent, rejected_with, Server, cookie_value,
  answer_login, answer_list, send_reload, admin, serve, serve_found, website,
}

-- The handlers that want an admin.
abbrev pub wants_admin : Endpoint → Bool
wants_admin (for_admin endpoint) = true
wants_admin _ = false

-- The answers behind which a reload was sent.
abbrev pub has_sent : WebReply → Bool
has_sent (reload_sent text) = true
has_sent _ = false

abbrev pub is_reload : Endpoint → Bool
is_reload reload = true
is_reload _ = false

module _ {World : Type 0} (backend : Backend World) where
  -- An answer with the status 401 or 500 and no text.
  abbrev pub IsRefused : WebReply → Type 0
  IsRefused r = (status : StatusCode) × (r ≡ rejected_with status) × IsRejection backend status

  -- What is known of the answer, from what the router found, where some have subscribed to the reloads.
  abbrev pub IsGuarded : ℕ → Found → WebReply → Type 0
  IsGuarded receivers path_not_found r = r ≡ rejected_with StatusCode.not_found
  IsGuarded receivers method_not_allowed r = r ≡ rejected_with StatusCode.method_not_allowed
  IsGuarded receivers (found endpoint params) r =
      (has_sent r ≡ (is_reload endpoint && not (receivers == 0)))
      × (if wants_admin endpoint then IsRefused r else Unit)

  sent_unless :
      (receivers : ℕ)
      → has_sent (if receivers == 0 then panicked else reload_sent "Apps reloaded !")
        ≡ not (receivers == 0)
  sent_unless receivers = elim (Bool-cases (receivers == 0)) [
    | inl e ↦ rw e refl
    | inr e ↦ rw e refl
  ]

  refused-not_sent : (r : WebReply) → IsRefused r → has_sent r ≡ false
  refused-not_sent r (status, e, k) = rw e refl

  module _ {Key : Type 0} (web_api : WebApi Key) {Authority Uri : Type 0}
      (server : Server Key Authority Uri) (receivers : ℕ) (salt : String) (req : WebRequest)
      (w : World)
      (unknown : ¬ IsAdminCookie backend (cookie_value backend web_api server req.cookie)) where
    answer_login-not_sent :
        (r : Result (StatusCode × String) Cookie)
        → has_sent (answer_login backend web_api server r) ≡ false
    unfolding answer_login
    answer_login-not_sent (ok cookie) = refl
    answer_login-not_sent (err rejection) = refl

    answer_list-not_sent :
        (r : Result StatusCode User) → has_sent (answer_list backend web_api server r) ≡ false
    unfolding answer_list
    answer_list-not_sent (ok user) = refl
    answer_list-not_sent (err status) = refl

    admin-guarded :
        (request : AdminRequest)
        → ((admin backend web_api server receivers salt request req w).0 ≡ w)
          × IsRefused (admin backend web_api server receivers salt request req w).1
    unfolding admin
    admin-guarded request =
        let (status, e, known) =
          admin_router-guarded backend salt server.config_file
            (cookie_value backend web_api server req.cookie) request w unknown in
        rw e (refl, (status, refl, known))

    serve_found-IsGuarded :
        (f : Found)
        → ((serve_found backend web_api server receivers salt f req w).0 ≡ w)
          × IsGuarded receivers f (serve_found backend web_api server receivers salt f req w).1
    unfolding serve_found serve send_reload
    serve_found-IsGuarded path_not_found = (refl, refl)
    serve_found-IsGuarded method_not_allowed = (refl, refl)
    serve_found-IsGuarded (found reload params) = (refl, (sent_unless receivers, tt))
    serve_found-IsGuarded (found local_auth params) = (refl, (answer_login-not_sent _, tt))
    serve_found-IsGuarded (found website_handler params) = (refl, (refl, tt))
    serve_found-IsGuarded (found list_services params) = (refl, (answer_list-not_sent _, tt))
    serve_found-IsGuarded (found (for_admin endpoint) params) =
        let (same, refused) = admin-guarded _ in (same, (refused-not_sent _ refused, refused))

    -- Whatever its path and its method are, a request to the website without the cookie of an admin
    -- leaves the files as they were. Where it leads to a handler below /api/admin it is answered with
    -- the status 401 or 500 and no text; where it leads nowhere, with 404 or 405. A reload is sent if
    -- it leads to /reload and anyone has subscribed to the reloads, and in no other case.
    pub website-IsGuarded :
        ((website backend web_api server receivers salt req w).0 ≡ w)
        × IsGuarded receivers
            (find_route web_api.router req.method req.path website_router)
            (website backend web_api server receivers salt req w).1
    unfolding website
    website-IsGuarded =
        serve_found-IsGuarded (find_route web_api.router req.method req.path website_router)

-- ===== src/Server/Website/Keys.antt =====
-- The keys of the configuration, over any number of requests to the website.
use vestirust.Prelude.{ℕ, String, List, [], ◌∷◌, ◌≡◌, ◌≢◌, refl, ap, inl, inr, ok, err, All}
use vestirust.Configuration.{Reply}
use vestirust.Configuration.Interface.{Backend, IsStorage}
use vestirust.Configuration.Laws.{save_failed}
use vestirust.Server.Admin.{AdminRequest, admin_router}
use vestirust.Server.Admin.Failures.{admin_router-IsHarmless}
use vestirust.Server.Admin.Keys.{HoldsUniqueKeys, admin_router-HoldsUniqueKeys}
use vestirust.Server.Routes.{
  reload, local_auth, website_handler, list_services, for_admin, Found, path_not_found,
  method_not_allowed, found, find_route, website_router,
}
use vestirust.Server.Website.{
  WebRequest, WebApi, WebReply, replied, Server, cookie_value, admin, serve, serve_found, website,
}

-- The answer of a handler that could not write the file.
abbrev pub could_not_save : WebReply
could_not_save = replied (err save_failed)

module _ {World : Type 0} {backend : Backend World} (storage : IsStorage backend) {Key : Type 0}
    (web_api : WebApi Key) {Authority Uri : Type 0} (server : Server Key Authority Uri) where
  -- The file of the server holds a configuration with unique keys.
  abbrev pub KeepsKeys : World → Type 0
  KeepsKeys w = HoldsUniqueKeys storage "" server.config_file w

  -- The answers to one request after another: each with what its turn brings, how many tasks wait for
  -- a reload and the salt that is drawn.
  abbrev pub serve_all : List (ℕ × String × WebRequest) → World → World × List WebReply
  serve_all [] w = (w, [])
  serve_all ((receivers, salt, req) ∷ rest) w =
      let (w', reply) = website backend web_api server receivers salt req w in
      let (w'', replies) = serve_all rest w' in (w'', reply ∷ replies)

  module _ (receivers : ℕ) (salt : String) (req : WebRequest) (w : World) (keys : KeepsKeys w) where
    replied-KeepsKeys :
        (request : AdminRequest) (w' : World) (r : Reply)
        → admin_router backend salt server.config_file
            (cookie_value backend web_api server req.cookie)
            request
            w
          ≡ (w', r)
        → replied r ≢ could_not_save
        → KeepsKeys w'
    replied-KeepsKeys request w' (ok done) e saved =
        admin_router-HoldsUniqueKeys storage salt server.config_file _ request w w' done keys e
    replied-KeepsKeys request w' (err refusal) e saved =
        elim (admin_router-IsHarmless backend salt server.config_file _ request w w' refusal e) [
          | inl same ↦ rw same keys
          | inr failed ↦ absurd (saved (ap (λ t. replied (err t)) failed))
        ]

    admin-KeepsKeys :
        (request : AdminRequest)
        → (admin backend web_api server receivers salt request req w).1 ≢ could_not_save
        → KeepsKeys (admin backend web_api server receivers salt request req w).0
    unfolding admin
    admin-KeepsKeys request = replied-KeepsKeys request _ _ refl

    serve_found-KeepsKeys :
        (f : Found)
        → (serve_found backend web_api server receivers salt f req w).1 ≢ could_not_save
        → KeepsKeys (serve_found backend web_api server receivers salt f req w).0
    unfolding serve_found serve
    serve_found-KeepsKeys path_not_found saved = keys
    serve_found-KeepsKeys method_not_allowed saved = keys
    serve_found-KeepsKeys (found reload params) saved = keys
    serve_found-KeepsKeys (found local_auth params) saved = keys
    serve_found-KeepsKeys (found website_handler params) saved = keys
    serve_found-KeepsKeys (found list_services params) saved = keys
    serve_found-KeepsKeys (found (for_admin endpoint) params) saved = admin-KeepsKeys _ saved

    website-KeepsKeys :
        (website backend web_api server receivers salt req w).1 ≢ could_not_save
        → KeepsKeys (website backend web_api server receivers salt req w).0
    unfolding website
    website-KeepsKeys =
        serve_found-KeepsKeys (find_route web_api.router req.method req.path website_router)

  -- If the file holds a configuration with unique keys, it does so after any number of requests to
  -- the website, whoever made them, if none is answered that the configuration could not be saved.
  pub serve_all-KeepsKeys :
      (requests : List (ℕ × String × WebRequest)) (w : World)
      → KeepsKeys w
      → All (λ reply. reply ≢ could_not_save) (serve_all requests w).1
      → KeepsKeys (serve_all requests w).0
  serve_all-KeepsKeys [] w keys saved = keys
  serve_all-KeepsKeys ((receivers, salt, req) ∷ rest) w keys saved =
      serve_all-KeepsKeys rest _ (website-KeepsKeys receivers salt req w keys saved.0) saved.1

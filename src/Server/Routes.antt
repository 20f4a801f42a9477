-- ===== src/Server/Routes.antt =====
-- src/server.rs: the tables of routes of the website, and how the router of axum reads them.
use vestirust.Prelude.{Bool, Option, none, some, String, List, [], ◌∷◌, ◌++◌, if◌then◌else◌}
use vestirust.Prelude.Texts.{concat}

-- The handlers below /api/admin, and all handlers.
pub data AdminEndpoint : Type 0 where
  get_users add_user delete_user : AdminEndpoint
  get_apps add_app delete_app : AdminEndpoint
  get_davs add_dav delete_dav : AdminEndpoint

pub data Endpoint : Type 0 where
  reload local_auth website_handler list_services : Endpoint
  for_admin : AdminEndpoint → Endpoint

-- `get`, `post`, `delete` and `any` of axum
pub data Filter : Type 0 where
  get post delete any : Filter

-- A path's pattern, with the handlers for its methods.
pub record Route : Type 0 where
  pub pattern : String
  pub methods : List (Filter × Endpoint)

abbrev route_at : String → List (Filter × Endpoint) → Route
route_at pattern methods = record { pattern = pattern; methods = methods }

-- `nest`
unfoldable pub nest : String → List Route → List Route
nest prefix [] = []
nest prefix (r ∷ rest) = record r { pattern = concat (prefix ∷ r.pattern ∷ []) } ∷ nest prefix rest

abbrev pub user_router : List Route
user_router = route_at "/list_services" ((get, list_services) ∷ []) ∷ []

abbrev pub admin_routes : List Route
admin_routes =
    route_at "/users" ((get, for_admin get_users) ∷ (post, for_admin add_user) ∷ [])
    ∷ route_at "/users/:user_login" ((delete, for_admin delete_user) ∷ [])
    ∷ route_at "/apps" ((get, for_admin get_apps) ∷ (post, for_admin add_app) ∷ [])
    ∷ route_at "/apps/:app_id" ((delete, for_admin delete_app) ∷ [])
    ∷ route_at "/davs" ((get, for_admin get_davs) ∷ (post, for_admin add_dav) ∷ [])
    ∷ route_at "/davs/:dav_id" ((delete, for_admin delete_dav) ∷ [])
    ∷ []

unfoldable pub website_router : List Route
unfolding nest
website_router =
    route_at "/reload" ((get, reload) ∷ [])
    ∷ route_at "/auth/local" ((post, local_auth) ∷ [])
    ∷ (nest "/api/admin" admin_routes
        ++ (nest "/api/user" user_router ++ route_at "/" ((any, website_handler) ∷ []) ∷ []))

-- What the router of axum decides: the values of a pattern's parameters in a path that fits it, and
-- whether a filter lets a method through.
pub record RouterApi : Type 0 where
  pub path_params : String → String → Option (List String)
  pub accepts : Filter → String → Bool

-- What a router finds: a path that no route has is answered with 404, a method that the path does not
-- have with 405.
pub data Found : Type 0 where
  path_not_found method_not_allowed : Found
  found : Endpoint → List String → Found

module _ (router_api : RouterApi) (method : String) where
  pub find_method : List String → List (Filter × Endpoint) → Found
  find_method params [] = method_not_allowed
  find_method params ((filter, endpoint) ∷ rest) =
      if router_api.accepts filter method then found endpoint params else find_method params rest

  unfoldable pub find_route : String → List Route → Found
  unfolding find_method
  find_route path [] = path_not_found
  find_route path (r ∷ rest) = elim (router_api.path_params r.pattern path) [
    | some params ↦ find_method params r.methods
    | none ↦ find_route path rest
  ]

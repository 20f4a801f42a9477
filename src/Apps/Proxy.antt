-- ===== src/Apps/Proxy.antt =====
-- src/apps.rs: `proxy_handler`. The proxy client is the crate `hyper_reverse_proxy`.
pub mod Rewrites
use vestirust.Prelude.{
  ℕ, Option, none, some, String, List, [], ◌∷◌, Result, ok, err, ok_or, Bool, false, if◌then◌else◌,
  str_eq, eq_iff,
}
use vestirust.Prelude.Tables.{Keyed, find_key}
use vestirust.Prelude.Texts.{concat, decimal, contains_text}
use vestirust.Model.{StatusCode, User, Scheme, AppWithUri, HostType, app, dav}
use vestirust.Users.Authorization.{check_authorization}

-- `uri::Parts`
pub record Parts (Authority Query : Type 0) : Type 0 where
  pub scheme : Option Scheme
  pub authority : Option Authority
  pub path_and_query : Option Query

-- What `proxy_handler` uses of the crate `http`.
pub record HttpApi (Authority Uri Query Value : Type 0) : Type 0 where
  pub parse_uri : String → Option Uri
  pub uri_text : Uri → String
  pub uri_host : Uri → Option String
  pub into_parts : Uri → Parts Authority Query
  pub from_parts : Parts Authority Query → Option Uri
  pub parse_authority : String → Option Authority
  pub authority_text : Authority → String
  pub authority_port : Authority → Option ℕ
  pub value_text : Value → Option String
  pub value_from : String → Option Value

-- A request or a response, but for its URI and its status; the names of headers are lower case.
pub record Message (Value : Type 0) : Type 0 where
  pub headers : List (String × Value)
  pub body : List ℕ

pub record HttpRequest (Uri Value : Type 0) : Type 0 where
  pub method : String
  pub uri : Uri
  pub message : Message Value

pub record HttpResponse (Value : Type 0) : Type 0 where
  pub status : ℕ
  pub message : Message Value

-- How a handler panics: it was given a service of the other kind, or an `unwrap` failed.
pub data Panic : Type 0 where
  wrong_service unwrap_failed : Panic

-- The response of a handler itself, with a status and no body, or one that was passed on.
pub data Handled (A : Type 0) : Type 0 where
  answered : StatusCode → Handled A
  passed : A → Handled A

infixl 5 ◌>>=◌
abbrev pub ◌>>=◌ : {A B : Type 0} → Option A → (A → Option B) → Option B
none >>= k = none
some a >>= k = k a

-- `none` is an `unwrap` that failed
or_unwrap_failed : {World A : Type 0} → World × Option A → World × Result Panic A
or_unwrap_failed (w, a) = (w, ok_or a unwrap_failed)

abbrev pub by_name : {Value : Type 0} → Keyed (String × Value) String
by_name = record { key = λ h. h.0; beq = str_eq; beq_iff = eq_iff }

module _ {Value : Type 0} where
  -- the headers but for those of a name
  without_name : String → List (String × Value) → List (String × Value)
  without_name name [] = []
  without_name name (header ∷ rest) =
      let kept = without_name name rest in if str_eq header.0 name then kept else header ∷ kept

  -- `HeaderMap::insert`: the value takes the place of all values of the name.
  insert_value : String → Value → List (String × Value) → List (String × Value)
  unfolding without_name
  insert_value name value [] = (name, value) ∷ []
  insert_value name value (header ∷ rest) =
      let inserted = insert_value name value rest in
      if str_eq header.0 name then (name, value) ∷ without_name name rest else header ∷ inserted

module _ {Authority Uri Query Value : Type 0} (http_api : HttpApi Authority Uri Query Value) where
  unfoldable pub insert_header : String → Value → Message Value → Message Value
  unfolding insert_value
  insert_header name value message = record message {
    headers = insert_value name value message.headers;
  }

  -- the authority that the request is sent to
  unfoldable pub forward_target : AppWithUri Authority Uri → Option Authority
  forward_target target =
      http_api.parse_authority (elim (http_api.authority_port target.forward_authority) [
        | some port ↦ concat (target.forward_host ∷ ":" ∷ decimal port ∷ [])
        | none ↦ target.forward_host
      ])

  -- the header "host", for a target without a port
  with_host : AppWithUri Authority Uri → Message Value → Option (Message Value)
  unfolding insert_header
  with_host target message = elim (http_api.authority_port target.forward_authority) [
    | some port ↦ some message
    | none ↦ http_api.value_from (http_api.authority_text target.forward_authority) >>= λ value.
        some (insert_header "host" value message)
  ]

  -- the request that is sent on
  pub forwarded : AppWithUri Authority Uri → HttpRequest Uri Value → Option (HttpRequest Uri Value)
  unfolding forward_target with_host
  forwarded target req = do
    authority ← forward_target target
    let parts = http_api.into_parts req.uri
    uri ←
        http_api.from_parts
          (record parts { scheme = some target.forward_scheme; authority = some authority })
    message ← with_host target req.message
    some (record req { uri = uri; message = message })

  -- whether a location is one of the target service
  unfoldable pub is_own : AppWithUri Authority Uri → Uri → Bool
  is_own target location = elim (http_api.uri_host location) [
    | none ↦ false
    | some host ↦ contains_text host target.forward_host
  ]

  -- a location of the target service becomes one of the app
  rewritten : AppWithUri Authority Uri → Uri → HttpResponse Value → Option (HttpResponse Value)
  unfolding insert_header
  rewritten target location response = do
    let parts = http_api.into_parts location
    uri ←
        http_api.from_parts
          (record parts { scheme = some target.app_scheme; authority = some target.app_authority })
    value ← http_api.value_from (http_api.uri_text uri)
    some (record response { message = insert_header "location" value response.message })

  -- what becomes of the response of the target service
  pub returned :
      AppWithUri Authority Uri → HttpResponse Value → Option (Handled (HttpResponse Value))
  unfolding is_own rewritten
  returned target response = elim (find_key by_name "location" response.message.headers) [
    | none ↦ some (passed response)
    | some header ↦ do
      text ← http_api.value_text header.1
      elim (http_api.parse_uri text) [
        | none ↦ some (answered StatusCode.internal_server_error)
        | some location ↦
            if is_own target location
            then (rewritten target location response >>= λ r. some (passed r))
            else some (passed response)
      ]
  ]

  -- `client` is the call of the reverse proxy, with the target's address and the request.
  module _ {World : Type 0}
      (client : String → HttpRequest Uri Value → World → World × Option (HttpResponse Value)) where
    after_call :
        AppWithUri Authority Uri
        → World × Option (HttpResponse Value)
        → World × Option (Handled (HttpResponse Value))
    unfolding returned
    after_call target (w, none) = (w, some (answered StatusCode.internal_server_error))
    after_call target (w, some response) = (w, returned target response)

    unfoldable pub proxy_app :
        AppWithUri Authority Uri
        → HttpRequest Uri Value
        → World
        → World × Option (Handled (HttpResponse Value))
    unfolding forwarded after_call
    proxy_app target req w = elim (forwarded target req) [
      | none ↦ (w, none)
      | some req' ↦ after_call target (client (http_api.uri_text target.forward_uri) req' w)
    ]

    unfoldable pub proxy_handler :
        Option User
        → HostType Authority Uri
        → HttpRequest Uri Value
        → World
        → World × Result Panic (Handled (HttpResponse Value))
    unfolding proxy_app or_unwrap_failed
    proxy_handler user service req w = elim (check_authorization service user) [
      | some status ↦ (w, ok (answered status))
      | none ↦ elim service [
        | app target ↦ or_unwrap_failed (proxy_app target req w)
        | dav d ↦ (w, err wrong_service)
      ]
    ]

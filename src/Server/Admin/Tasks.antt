-- ===== src/Server/Admin/Tasks.antt =====
-- src/server.rs, src/configuration.rs: admin requests that are handled at the same time. A task waits
-- where it reads the configuration's file, in the extractor of `Config`, and where its handler writes
-- it, and any other task may go on in between. A read and a write of the file are one step each.
pub mod Log
pub mod Serial
use vestirust.Prelude.{
  ℕ, Option, none, some, String, List, [], ◌∷◌, ◌≡◌, refl, ok, err, ◌==◌, if◌then◌else◌, inl, inr,
  Option-cases, Result-cases,
}
use vestirust.Model.{StatusCode, Config}
use vestirust.Configuration.{Reply, from_file}
use vestirust.Configuration.Interface.{Backend}
use vestirust.Users.Accounts.{admin_from_request}
use vestirust.Server.Admin.{AdminRequest, admin_handler, admin_router}
use vestirust.Server.Admin.Keys.{is_write}

-- A request, with the salt that its handler draws.
pub record Sent : Type 0 where
  pub cookie : Option String
  pub salt : String
  pub request : AdminRequest

-- Where the task of a request is: before its extractors, in its handler with the configuration that
-- was extracted, or at its end.
pub data Task : Type 0 where
  waiting : Task
  holding : Config → Task
  answered : Reply → Task

-- `log` has the requests that have written and succeeded, the last one in front.
pub record System (World : Type 0) : Type 0 where
  pub world : World
  pub tasks : ℕ → Task
  pub log : List ℕ

-- the tasks, with the `i`th at `t`
abbrev pub moved : (ℕ → Task) → ℕ → Task → ℕ → Task
moved tasks i t j = if i == j then t else tasks j

abbrev pub at_start : {World : Type 0} → World → System World
at_start w = record { world = w; tasks = λ i. waiting; log = [] }

module _ {World : Type 0} (backend : Backend World) (config_file : String) (sent : ℕ → Sent) where
  -- the extractors of `Config` and of `Admin`
  unfoldable pub extracted : ℕ → World → Task
  extracted i w = elim (from_file backend w config_file) [
    | none ↦ answered (err (StatusCode.internal_server_error, ""))
    | some config ↦ elim (admin_from_request backend (sent i).cookie) [
      | err status ↦ answered (err (status, ""))
      | ok admin ↦ holding config
    ]
  ]

  -- the handler
  abbrev pub handled : ℕ → Config → World → World × Reply
  handled i config w = admin_handler backend (sent i).salt config_file config (sent i).request w

  abbrev pub logged : ℕ → Reply → List ℕ → List ℕ
  logged i (ok done) log = if is_write (sent i).request then i ∷ log else log
  logged i (err refusal) log = log

  abbrev pub finished : ℕ → Config → System World → System World
  finished i config s =
      let (w', reply) = handled i config s.world in
      record { world = w'; tasks = moved s.tasks i (answered reply); log = logged i reply s.log }

  pub data Step : System World → System World → Type 0 where
    extract :
        {s : System World} (i : ℕ)
        → s.tasks i ≡ waiting
        → Step s (record s { tasks = moved s.tasks i (extracted i s.world) })
    finish :
        {s : System World} (i : ℕ) (config : Config)
        → s.tasks i ≡ holding config
        → Step s (finished i config s)

  -- What can come of the requests, with their steps in any order.
  pub data Reach (w : World) : System World → Type 0 where
    start : Reach w (at_start w)
    later : {s t : System World} → Reach w s → Step s t → Reach w t

  abbrev in_turn : ℕ → Task → World → World × Reply
  in_turn i waiting w = (w, err (StatusCode.internal_server_error, ""))
  in_turn i (holding config) w = handled i config w
  in_turn i (answered r) w = (w, r)

  -- A task whose steps no other comes between answers as the router does.
  admin_router-in_turn :
      (i : ℕ) (w : World)
      → admin_router backend (sent i).salt config_file (sent i).cookie (sent i).request w
        ≡ in_turn i (extracted i w) w
  unfolding admin_router extracted
  admin_router-in_turn i w = elim (Option-cases (from_file backend w config_file)) [
    | inl e ↦ rw (e, admin_router, extracted) refl
    | inr (config, e) ↦ elim (Result-cases (admin_from_request backend (sent i).cookie)) [
      | inl (admin, a) ↦ rw (e, admin_router, extracted, a) refl
      | inr (status, a) ↦ rw (e, admin_router, extracted, a) refl
    ]
  ]

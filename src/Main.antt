-- ===== src/Main.antt =====
-- src/main.rs: the loops of `main`. `App` is a built router, with the configuration that was loaded
-- for it; what the connections, the clients and the signals do is a list of events.
pub mod Laws
pub mod Domains
pub mod Broken
pub mod Entry
use vestirust.Prelude.{
  ℕ, suc, Bool, true, false, not, ◌&&◌, ◌||◌, Option, none, some, List, [], ◌∷◌, ◌==◌,
  if◌then◌else◌,
}

-- What `Server::build` comes to.
pub data Built (App : Type 0) : Type 0 where
  build_error build_panic : Built App
  built_app : App → Built App

-- What the `select!` of the server without TLS takes first: the receiver of the reloads or a signal.
pub data Select : Type 0 where
  received signalled : Select

pub data Exit : Type 0 where
  done error panic still_running : Exit

-- A round of the loop without TLS: what the build gives, whether its port can be bound, what the
-- `select!` takes first, and whether the server then ends without an error.
pub record Round (App : Type 0) : Type 0 where
  pub built : Built App
  pub bound : Bool
  pub selected : Select
  pub served : Bool

-- `continue_main_loop` after the `select!`
continue_after : Select → Bool → Bool
continue_after received continue_main = continue_main
continue_after signalled continue_main = false

module _ {App : Type 0} where
  -- a round, with what the loop does behind it
  serve_round : Round App → List App × Exit → List App × Exit
  serve_round round rest = elim round.built [
    | build_error ↦ ([], error)
    | build_panic ↦ ([], panic)
    | built_app app ↦
        if not round.bound
        then ([], panic)
        else if not round.served
        then (app ∷ [], error)
        else (app ∷ rest.0, rest.1)
  ]

  -- the apps that the loop without TLS serves, and how it ends, from `continue_main_loop`
  unfoldable pub http_loop : Bool → List (Round App) → List App × Exit
  unfolding continue_after serve_round
  http_loop continue_main [] = if not continue_main then ([], done) else ([], still_running)
  http_loop continue_main (round ∷ rounds) =
      let rest = http_loop (continue_after round.selected continue_main) rounds in
      if not continue_main then ([], done) else serve_round round rest

-- The loop with TLS waits for a connection, or has ended: by a shutdown, with the error or the panic of
-- a build, or killed by a signal that no task handles.
pub data Phase : Type 0 where
  accepting stopped build_failed killed : Phase

-- An open connection, with the number of the round of the outer loop that accepted it.
pub record Connection (App : Type 0) : Type 0 where
  pub round : ℕ
  pub app : App

-- `continue_inner` is the flag of the current round; a connection writes to the flag of its own.
-- `handled` is whether a task has installed the handlers of the signals, which stay installed.
pub record TlsLoop (App : Type 0) : Type 0 where
  pub phase : Phase
  pub round : ℕ
  pub app : App
  pub continue_main : Bool
  pub continue_inner : Bool
  pub handled : Bool
  pub connections : List (Connection App)

-- A connection comes, for a validation by ACME or not, with what a build would give then, if it does
-- not fail; a reload is
-- sent to the connections; a signal arrives; the first connection ends.
pub data Event (App : Type 0) : Type 0 where
  connected : Bool → Option App → Event App
  reload_sent signal finished : Event App

module _ {App : Type 0} where
  -- whether a connection of the round is open
  unfoldable pub any_of_round : ℕ → List (Connection App) → Bool
  any_of_round n [] = false
  any_of_round n (c ∷ rest) = c.round == n || any_of_round n rest

  unfoldable pub is_open : List (Connection App) → Bool
  is_open [] = false
  is_open (c ∷ rest) = true

  tail : List (Connection App) → List (Connection App)
  tail [] = []
  tail (c ∷ rest) = rest

  -- the next state, unless the loop has ended
  if_accepting : TlsLoop App → TlsLoop App → TlsLoop App
  if_accepting s next = elim s.phase [
    | accepting ↦ next
    | stopped ↦ s
    | build_failed ↦ s
    | killed ↦ s
  ]

  -- the head of the outer loop
  outer_head : Option App → TlsLoop App → TlsLoop App
  outer_head built s = if not s.continue_main then record s { phase = stopped } else (elim built [
    | none ↦ record s { phase = build_failed }
    | some app ↦ record s { round = suc s.round; app = app; continue_inner = true }
  ])

  -- the heads of the loops, up to the next call of `poll_accept`
  unfoldable pub loop_head : Option App → TlsLoop App → TlsLoop App
  unfolding outer_head
  loop_head built s = if s.continue_inner then s else outer_head built s

  unfoldable pub react : Event App → TlsLoop App → TlsLoop App
  unfolding loop_head if_accepting any_of_round is_open tail
  react (connected true built) s = if_accepting s (loop_head built s)
  react (connected false built) s = if_accepting s (
      loop_head built (record s {
        handled = true;
        connections = record { round = s.round; app = s.app } ∷ s.connections;
      }))
  react reload_sent s = record s {
    continue_inner = s.continue_inner && not (any_of_round s.round s.connections);
    connections = [];
  }
  react signal s =
      if s.handled
      then record s {
        continue_main = s.continue_main && not (is_open s.connections);
        continue_inner = s.continue_inner && not (any_of_round s.round s.connections);
        connections = [];
      }
      else if_accepting s (record s { phase = killed })
  react finished s = record s { connections = tail s.connections }

  unfoldable pub run : List (Event App) → TlsLoop App → TlsLoop App
  unfolding react
  run [] s = s
  run (e ∷ rest) s = run rest (react e s)

  -- the start of the loop, with the first build
  unfoldable pub start : App → TlsLoop App
  start app = record {
    phase = accepting;
    round = 0;
    app = app;
    continue_main = true;
    continue_inner = true;
    handled = false;
    connections = [];
  }

-- ===== src/Tests/Loops.antt =====
-- Runs of the theorems on the loops of `main`; an app is a number here.
use vestirust.Prelude.{ℕ, true, false, some, none, [], ◌∷◌, ◌≡◌, refl, List, false}
use vestirust.Main.{
  accepting, stopped, Connection, connected, reload_sent, signal, any_of_round, run,
}
use vestirust.Main.Laws.{listening, run-signal, run-reload_sent}

abbrev open_connections : List (Connection ℕ)
open_connections = record { round = 4; app = 7 } ∷ []

run-signal_example :
    ((run (signal ∷ []) (listening 4 7 open_connections)).phase ≡ accepting)
    × ((run (signal ∷ []) (listening 4 7 open_connections)).connections ≡ [])
    × ((run (signal ∷ connected false (some 8) ∷ []) (listening 4 7 open_connections)).connections
        ≡ record { round = 4; app = 7 } ∷ [])
    × ((run (signal ∷ connected false (some 8) ∷ []) (listening 4 7 open_connections)).phase
        ≡ stopped)
unfolding any_of_round
run-signal_example = run-signal 4 7 open_connections (some 8)

is_current : any_of_round 4 open_connections ≡ true
unfolding any_of_round
is_current = refl

run-reload_sent_example :
    (run
      (reload_sent ∷ connected false (some 8) ∷ connected false none ∷ [])
      (listening 4 7 open_connections)).connections
    ≡ record { round = 5; app = 8 } ∷ record { round = 4; app = 7 } ∷ []
run-reload_sent_example = run-reload_sent 4 7 8 open_connections none is_current

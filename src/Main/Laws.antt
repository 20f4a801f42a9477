-- ===== src/Main/Laws.antt =====
-- What a signal and a reload do to the loop of src/main.rs with TLS.
use vestirust.Prelude.{
  ℕ, suc, ◌≡◌, refl, ap, true, false, Option, some, List, [], ◌∷◌, inl, inr, Bool-cases,
  if◌then◌else◌,
}
use vestirust.Main.{
  accepting, stopped, Connection, TlsLoop, connected, reload_sent, signal, any_of_round, is_open,
  if_accepting, outer_head, loop_head, react, run,
}

module _ {App : Type 0} where
  -- The loop with TLS waits for a connection, after at least one that it served, and no reload or
  -- shutdown is under way.
  abbrev pub listening : ℕ → App → List (Connection App) → TlsLoop App
  listening n app connections = record {
    phase = accepting;
    round = n;
    app = app;
    continue_main = true;
    continue_inner = true;
    handled = true;
    connections = connections;
  }

  any_of_round-is_open :
      (n : ℕ) (connections : List (Connection App))
      → any_of_round n connections ≡ true
      → is_open connections ≡ true
  unfolding any_of_round is_open
  any_of_round-is_open n [] h = cc
  any_of_round-is_open n (c ∷ rest) h = refl

  -- When a signal comes to the waiting loop with TLS, all connections end and the loop still waits: the
  -- next connection is accepted and given the app of before. Behind it the loop ends, without a build,
  -- if a connection of the current round was open at the signal; if none was, it goes on.
  pub run-signal :
      (n : ℕ) (app : App) (connections : List (Connection App)) (built : Option App)
      → (let signalled = run (signal ∷ []) (listening n app connections) in
          let next = run (signal ∷ connected false built ∷ []) (listening n app connections) in
          (signalled.phase ≡ accepting)
          × (signalled.connections ≡ [])
          × (next.connections ≡ record { round = n; app = app } ∷ [])
          × (next.phase ≡ (if any_of_round n connections then stopped else accepting)))
  unfolding run react loop_head outer_head if_accepting
  run-signal n app connections built = elim (Bool-cases (any_of_round n connections)) [
    | inl e ↦ rw (e, any_of_round-is_open n connections e) (refl, refl, refl, refl)
    | inr e ↦ rw e (refl, refl, refl, refl)
  ]

  react-reload_sent :
      (n : ℕ) (app : App) (connections : List (Connection App))
      → any_of_round n connections ≡ true
      → react reload_sent (listening n app connections)
        ≡ record (listening n app []) { continue_inner = false }
  unfolding react
  react-reload_sent n app connections e = rw e refl

  -- When a reload is sent to the waiting loop with TLS while a connection of the current round is
  -- open, the next connection still is given the app of before, and the one behind it what was built
  -- when that one came.
  pub run-reload_sent :
      (n : ℕ) (app app' : App) (connections : List (Connection App)) (built : Option App)
      → any_of_round n connections ≡ true
      → (run
          (reload_sent ∷ connected false (some app') ∷ connected false built ∷ [])
          (listening n app connections)).connections
        ≡ record { round = suc n; app = app' } ∷ record { round = n; app = app } ∷ []
  unfolding run react loop_head outer_head if_accepting
  run-reload_sent n app app' connections built e =
      ap (λ s. (run (connected false (some app') ∷ connected false built ∷ []) s).connections)
        (react-reload_sent n app connections e)

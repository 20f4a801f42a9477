-- ===== src/Main/Entry.antt =====
-- src/main.rs: `main`, up to its loops and with them.
use vestirust.Prelude.{Bool, true, not, ◌&&◌, ◌||◌, String, List, if◌then◌else◌}
use vestirust.Model.{Config}
use vestirust.Configuration.Services.{Service}
use vestirust.Server.Build.{Loaded, loaded, load_failed, load_panicked}
use vestirust.Main.{
  Built, build_error, build_panic, built_app, Exit, Round, http_loop, TlsLoop, Event, run, start,
}

-- How `main` goes: it returns an error before any loop, it panics, or it is in one of its loops, of
-- which the one without TLS shows what it has served.
pub data Outcome (App : Type 0) : Type 0 where
  returned_error panicked : Outcome App
  without_tls : List App × Exit → Outcome App
  with_tls : TlsLoop App → Outcome App

-- the listeners of the mocks, in debug mode
binds_mocks : (String → Bool) → Config → Bool
binds_mocks bind config = not config.debug_mode || (bind "127.0.0.1:8081" && bind "127.0.0.1:8082")

module _ {App : Type 0} (bind : String → Bool) where
  -- The outer loop with TLS builds its first server before it accepts a connection.
  tls_main : Built App → List (Event App) → Outcome App
  tls_main first events = if not (bind "[::]:443") then panicked else (elim first [
    | build_error ↦ returned_error
    | build_panic ↦ panicked
    | built_app app ↦ with_tls (run events (start app))
  ])

  -- `main`, from the configuration that it loads and from what happens then
  unfoldable pub main :
      {Authority Uri : Type 0}
      → Loaded (Config × List (Service Authority Uri))
      → Built App
      → List (Event App)
      → List (Round App)
      → Outcome App
  unfolding binds_mocks tls_main
  main load_failed first events rounds = returned_error
  main load_panicked first events rounds = panicked
  main (loaded (config, services)) first events rounds =
      if not (binds_mocks bind config)
      then panicked
      else if config.auto_tls
      then tls_main first events
      else without_tls (http_loop true rounds)

-- ===== src/Proxy/Main.antt =====
-- trixter/src/main.rs: `main`, up to the tasks that it spawns.
pub mod Serves
pub mod Processes
mod Tests
use trixter.Prelude.{ℕ, Bool, true, false, List, [], ◌∷◌}
use trixter.Tokio.{Result, ok, err, panic, spin, IoError, Float}
use trixter.Proxy.Settings.{
  Config, Validity, valid, bad_terminate_probability_rate, bad_corrupt_probability_rate, validate,
  with_seed,
}

-- What `select!` hands the loop, one after the other: a connection, an error of `accept`, or Ctrl-C.
pub data Event (T Addr : Type 0) : Type 0 where
  accept_ok : T → Addr → Event T Addr
  accept_failed : IoError → Event T Addr
  ctrl_c : Event T Addr

-- A spawned `handle_connection`, by its arguments; all share the one table.
pub record Spawned (T Addr F : Type 0) : Type 0 where
  pub downstream : T
  pub addr : Addr
  pub config : Config Addr F

-- How far `main` comes: it returns an error, or `Ok(())`, or it waits for the next event.
pub data Progress (F : Type 0) : Type 0 where
  refused : Validity F → Progress F
  not_bound : Result (Unit {0}) → Progress F
  stopped : Progress F
  waiting : Progress F

module _ {T Addr F : Type 0} where
  abbrev spawn :
      Spawned T Addr F → Progress F × List (Spawned T Addr F) → Progress F × List (Spawned T Addr F)
  spawn task (progress, tasks) = (progress, task ∷ tasks)

  -- The loop, on the events that have come so far.
  pub accept_loop : Config Addr F → List (Event T Addr) → Progress F × List (Spawned T Addr F)
  accept_loop config [] = (waiting, [])
  accept_loop config (accept_ok stream addr ∷ events) =
      spawn (record { downstream = stream; addr = addr; config = config })
        (accept_loop config events)
  accept_loop config (accept_failed e ∷ events) = accept_loop config events
  accept_loop config (ctrl_c ∷ events) = (stopped, [])

  -- `TcpListener::bind(config.listen).await?`: a listener is what happens on it.
  serve_bound : Config Addr F → Result (List (Event T Addr)) → Progress F × List (Spawned T Addr F)
  unfolding accept_loop
  serve_bound config (ok events) = accept_loop config events
  serve_bound config (err e) = (not_bound (err e), [])
  serve_bound config panic = (not_bound panic, [])
  serve_bound config spin = (not_bound spin, [])

  -- `cfg.validate()?`, and then the seed that is drawn if none was given.
  serve_checked :
      Validity F
      → Config Addr F
      → ℕ
      → (Addr → Result (List (Event T Addr)))
      → Progress F × List (Spawned T Addr F)
  unfolding serve_bound
  serve_checked valid cfg drawn bind =
      let config = with_seed cfg drawn in serve_bound config (bind config.listen)
  serve_checked (bad_terminate_probability_rate rate) cfg drawn bind =
      (refused (bad_terminate_probability_rate rate), [])
  serve_checked (bad_corrupt_probability_rate rate) cfg drawn bind =
      (refused (bad_corrupt_probability_rate rate), [])

  -- `main` with a parsed configuration, the number that it may draw, and the listener of an address.
  unfoldable pub run_main :
      ⦃fl : Float F⦄
      → Config Addr F
      → ℕ
      → (Addr → Result (List (Event T Addr)))
      → Progress F × List (Spawned T Addr F)
  unfolding serve_checked
  run_main cfg drawn bind = serve_checked (validate cfg) cfg drawn bind

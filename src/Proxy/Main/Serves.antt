-- ===== src/Proxy/Main/Serves.antt =====
-- trixter/src/main.rs: the tasks that `main` spawns.
use trixter.Prelude.{ℕ, ◌≡◌, ◌≢◌, refl, sym, ap, ◌⊎◌, inl, inr, List, [], ◌∷◌, map}
use trixter.Tokio.{Result, ok, err, panic, spin, AsyncWrite, Timer, Float, DashMap}
use trixter.Io.{ResetLinger}
use trixter.Proxy.Settings.{
  Config, Validity, valid, bad_terminate_probability_rate, bad_corrupt_probability_rate, validate,
  with_seed,
}
use trixter.Proxy.Api.{ConnectionState}
use trixter.Proxy.Finish.{Copy}
use trixter.Proxy.Task.{Host, Seedable, Faulty, Downstream, handle_connection}
use trixter.Proxy.Task.Startup.{Orderly, OrderlyCopy, TaskReturns, handle_connection-Returns}
use trixter.Proxy.Main.{
  Event, accept_ok, accept_failed, ctrl_c, Spawned, Progress, refused, accept_loop, serve_bound,
  serve_checked, run_main,
}

-- The events before the first Ctrl-C.
abbrev pub before_ctrl_c : {T Addr : Type 0} → List (Event T Addr) → List (Event T Addr)
before_ctrl_c [] = []
before_ctrl_c (ctrl_c ∷ events) = []
before_ctrl_c (accept_ok stream addr ∷ events) = accept_ok stream addr ∷ before_ctrl_c events
before_ctrl_c (accept_failed e ∷ events) = accept_failed e ∷ before_ctrl_c events

abbrev pub connections_in : {T Addr : Type 0} → List (Event T Addr) → List (T × Addr)
connections_in [] = []
connections_in (ctrl_c ∷ events) = connections_in events
connections_in (accept_ok stream addr ∷ events) = (stream, addr) ∷ connections_in events
connections_in (accept_failed e ∷ events) = connections_in events

abbrev pub connection_of : {T Addr F : Type 0} → Spawned T Addr F → T × Addr
connection_of task = (task.downstream, task.addr)

-- `P` of every task.
abbrev pub EachTask :
    {T Addr F : Type 0} → (Spawned T Addr F → Type 0) → List (Spawned T Addr F) → Type 0
EachTask P [] = Unit {0}
EachTask P (task ∷ tasks) = P task × EachTask P tasks

module _ {T Addr F : Type 0} where
  accept_loop-tasks :
      (config : Config Addr F) (events : List (Event T Addr))
      → map connection_of (accept_loop config events).1 ≡ connections_in (before_ctrl_c events)
  unfolding accept_loop
  accept_loop-tasks config [] = refl
  accept_loop-tasks config (ctrl_c ∷ events) = refl
  accept_loop-tasks config (accept_ok stream addr ∷ events) =
      ap (λ rest. (stream, addr) ∷ rest) (accept_loop-tasks config events)
  accept_loop-tasks config (accept_failed e ∷ events) = accept_loop-tasks config events

  accept_loop-each :
      (P : Spawned T Addr F → Type 0) (config : Config Addr F)
      → ((stream : T) (addr : Addr)
          → P (record { downstream = stream; addr = addr; config = config }))
      → (events : List (Event T Addr)) → EachTask P (accept_loop config events).1
  unfolding accept_loop
  accept_loop-each P config holds [] = tt
  accept_loop-each P config holds (ctrl_c ∷ events) = tt
  accept_loop-each P config holds (accept_ok stream addr ∷ events) =
      (holds stream addr, accept_loop-each P config holds events)
  accept_loop-each P config holds (accept_failed e ∷ events) =
      accept_loop-each P config holds events

-- The connections that the listener brings before the first Ctrl-C, if it could be bound.
abbrev pub accepted_by : {T Addr : Type 0} → Result (List (Event T Addr)) → List (T × Addr)
accepted_by (ok events) = connections_in (before_ctrl_c events)
accepted_by (err e) = []
accepted_by panic = []
accepted_by spin = []

module _ {T Addr F : Type 0} (config : Config Addr F) where
  serve_bound-tasks :
      (bound : Result (List (Event T Addr)))
      → map connection_of (serve_bound config bound).1 ≡ accepted_by bound
  unfolding serve_bound
  serve_bound-tasks (ok events) = accept_loop-tasks config events
  serve_bound-tasks (err e) = refl
  serve_bound-tasks panic = refl
  serve_bound-tasks spin = refl

  serve_bound-each :
      (P : Spawned T Addr F → Type 0)
      → ((stream : T) (addr : Addr)
          → P (record { downstream = stream; addr = addr; config = config }))
      → (bound : Result (List (Event T Addr))) → EachTask P (serve_bound config bound).1
  unfolding serve_bound
  serve_bound-each P holds (ok events) = accept_loop-each P config holds events
  serve_bound-each P holds (err e) = tt
  serve_bound-each P holds panic = tt
  serve_bound-each P holds spin = tt

module _ (Cx M K Tx Sleep G Rx : Type 0) {T Addr F : Type 0} ⦃fl : Float F⦄ ⦃tm : Timer Cx Sleep⦄
    ⦃w : AsyncWrite Cx T⦄ ⦃ln : ResetLinger T⦄ ⦃sg : Seedable G⦄ ⦃host : Host Cx T K Addr Tx Rx⦄
    ⦃dm : DashMap K (ConnectionState K Addr Tx) M⦄
    ⦃cp : Copy (Downstream T Sleep G Rx) (Faulty T Sleep G) M Cx⦄ where
  -- Whatever the others have made of the table, the task returns and does not panic.
  abbrev pub TaskEnds : Spawned T Addr F → Type 0
  TaskEnds task =
      (m : M) (cx : Cx)
      → TaskReturns Sleep G Rx (handle_connection K Tx task.downstream task.addr task.config m cx)

  -- How `main` serves.
  abbrev pub Serves :
      Config Addr F → Result (List (Event T Addr)) → Progress F × List (Spawned T Addr F) → Type 0
  Serves cfg bound (progress, tasks) =
      ((validate cfg ≢ valid) × (progress ≡ refused (validate cfg)) × (tasks ≡ []))
      ⊎ ((validate cfg ≡ valid)
          × (map connection_of tasks ≡ accepted_by bound)
          × EachTask TaskEnds tasks)

module _ (K Tx : Type 0) {Cx M Sleep G Rx T Addr F : Type 0} ⦃fl : Float F⦄ ⦃tm : Timer Cx Sleep⦄
    ⦃w : AsyncWrite Cx T⦄ ⦃ln : ResetLinger T⦄ ⦃sg : Seedable G⦄ ⦃host : Host Cx T K Addr Tx Rx⦄
    ⦃dm : DashMap K (ConnectionState K Addr Tx) M⦄
    ⦃cp : Copy (Downstream T Sleep G Rx) (Faulty T Sleep G) M Cx⦄ (laws : OrderlyCopy cp)
    (connects : (addr : Addr) (cx : Cx) → Orderly (host.connect addr cx).0) where
  serve_checked-Serves :
      (v : Validity F) (cfg : Config Addr F) (drawn : ℕ)
      (bind : Addr → Result (List (Event T Addr)))
      → validate cfg ≡ v
      → Serves Cx M K Tx Sleep G Rx cfg (bind cfg.listen) (serve_checked v cfg drawn bind)
  unfolding serve_checked
  serve_checked-Serves valid cfg drawn bind h = inr (
    h,
    serve_bound-tasks (with_seed cfg drawn) (bind cfg.listen),
    serve_bound-each (with_seed cfg drawn) (TaskEnds Cx M K Tx Sleep G Rx)
        (λ stream addr m cx.
          handle_connection-Returns K Tx laws stream addr cfg drawn m cx h
            (connects cfg.upstream cx))
        (bind cfg.listen),
  )
  serve_checked-Serves (bad_terminate_probability_rate rate) cfg drawn bind h =
      inl ((λ e. cc), ap refused (sym h), refl)
  serve_checked-Serves (bad_corrupt_probability_rate rate) cfg drawn bind h =
      inl ((λ e. cc), ap refused (sym h), refl)

  -- With a configuration that it refuses `main` returns that error and spawns nothing. With any
  -- other it spawns one task for each connection that its listener brings before the first Ctrl-C,
  -- in their order, errors of `accept` between them or not, and none if the listener could not be
  -- bound; and every task, on whatever table the others leave, returns and does not panic. Assumed:
  -- connecting the upstream and copying end without a panic.
  pub run_main-Serves :
      (cfg : Config Addr F) (drawn : ℕ) (bind : Addr → Result (List (Event T Addr)))
      → Serves Cx M K Tx Sleep G Rx cfg (bind cfg.listen) (run_main cfg drawn bind)
  unfolding run_main
  run_main-Serves cfg drawn bind = serve_checked-Serves (validate cfg) cfg drawn bind refl

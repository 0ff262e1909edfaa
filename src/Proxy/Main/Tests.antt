-- ===== src/Proxy/Main/Tests.antt =====
-- trixter/src/main.rs: examples of `main` and of the steps of its tasks.
use trixter.Prelude.{ℕ, ◌≡◌, refl, Bool, true, List, [], ◌∷◌, Memᴰ, some, if◌then◌else◌, Option}
use trixter.Tokio.{Result, ok, err, os, other, terminated_error, Poll, Payload}
use trixter.Fixtures.{Tape, blank, tape, clock_timer, percent, counter, running, given}
use trixter.Fixtures.Table.{table, table_laws, lookup, delete}
use trixter.Fixtures.Proxy.{
  tape_linger, split, local, broken, broken_is_orderly, config, config_knobs, its_knobs, drawn,
  client, Entries, no_entries, none_there, told, same_id, one, two,
}
use trixter.Proxy.Api.{ConnectionState, ApiState, boxed}
use trixter.Proxy.Api.Every.{Every}
use trixter.Proxy.Api.Handlers.{status_code, route}
use trixter.Proxy.Api.Handlers as Handlers
use trixter.Proxy.Api as Api
use trixter.Proxy.Finish.{clean_up}
use trixter.Proxy.Task.{entry}
use trixter.Proxy.Main.{Event, accept_ok, accept_failed, ctrl_c, run_main}
use trixter.Proxy.Main.Serves.{Serves, run_main-Serves}
use trixter.Proxy.Main.Processes.{
  Running, Processes, started, entered, requested, finished, Attended, Processes-Attended,
  shutdown-reaches,
}

-- Two connections come, with an error between them, and a third after Ctrl-C.
abbrev listener : ℕ → Result (List (Event Tape ℕ))
listener addr = ok (
    accept_ok blank 7 ∷ accept_failed (os 24) ∷ accept_ok blank 8 ∷ ctrl_c ∷ accept_ok blank 9 ∷ [])

run_main-Serves_example :
    Serves ℕ Entries ℕ Bool ℕ ℕ
      (Poll (Option Payload))
      config
      (listener 1)
      (run_main config drawn listener)
run_main-Serves_example =
    run_main-Serves ℕ Bool broken_is_orderly (λ addr cx. tt) config drawn listener

-- Two tasks enter their connections, the first ends, and the API sets a knob of the second.
abbrev first_in : ApiState ℕ ℕ Bool Entries
first_in = record {
  connections = table.insert no_entries one (entry one client 2 config_knobs true);
}

abbrev both_in : ApiState ℕ ℕ Bool Entries
both_in = record {
  connections = table.insert first_in.connections two (entry two client 2 config_knobs true);
}

-- The table that the first task leaves, and then the request.
abbrev one_left : ApiState ℕ ℕ Bool Entries
one_left = record {
  connections =
      (clean_up (ConnectionState ℕ ℕ Bool) one
        (err (other terminated_error), blank, blank, both_in.connections, running)).connections;
}

abbrev faster : Handlers.Request ℕ ℕ
faster = Handlers.throttle two 5000

abbrev set_faster : ApiState ℕ ℕ Bool Entries
set_faster = (route faster one_left running).1

abbrev running_two : List (Running ℕ Bool)
running_two = record { id = two; tx = true } ∷ []

abbrev steps : Processes ℕ ℕ Tape Tape running_two set_faster
steps =
    requested
      (finished
        (entered
          (entered (started no_entries none_there) config config_knobs one client true its_knobs)
          config config_knobs two client true its_knobs)
        running_two [] (record { id = one; tx = true }) refl (err (other terminated_error)) blank
        blank running tt)
      faster running

Processes-Attended_example : Every (Attended {Addr = ℕ} running_two) set_faster
Processes-Attended_example = Processes-Attended table_laws same_id steps

abbrev entry_now : ConnectionState ℕ ℕ Bool
entry_now = record (entry one client 2 config_knobs true) {
  conn_info = record { id = two; downstream = client; upstream = 2 };
  throttle_rate = record { size = 5000 };
}

there : table.get set_faster.connections two ≡ some entry_now
unfolding route clean_up table lookup delete Api.set_throttle_rate Api.set_connection
there = refl

shutdown-reaches_example :
    (task : Running ℕ Bool) × Memᴰ task running_two
    × (task.id ≡ two)
    × (let (sent, cx') = told.send task.tx (boxed "stop") running in
        route {F = ℕ} (Handlers.shutdown two "stop") set_faster running ≡ (
          status_code (if sent then 202 else 500),
          record { connections = (table.remove set_faster.connections two).1 },
          cx',
        ))
shutdown-reaches_example =
    shutdown-reaches table_laws same_id steps two "stop" running entry_now there

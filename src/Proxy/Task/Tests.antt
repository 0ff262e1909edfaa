-- ===== src/Proxy/Task/Tests.antt =====
-- trixter/src/main.rs: examples of the task of a connection.
use trixter.Prelude.{ℕ, ◌≡◌, refl, Bool, true, List, [], ◌∷◌, some, arith}
use trixter.Tokio.{err, other, terminated_error}
use trixter.Io.{forward}
use trixter.Fixtures.{
  Tape, blank, tape, clock_timer, percent, percent_laws, given, counter, running,
}
use trixter.Fixtures.Table.{table, table_laws}
use trixter.Probability.{DynamicProbability, dynamic_threshold}
use trixter.Corrupter.{Corrupter, corrupter_write}
use trixter.Terminator.{Terminator, terminator_write}
use trixter.Slicer.{sliced_write, dynamic_size}
use trixter.Throttler.{dynamic_rate}
use trixter.Throttler.Writer.{throttled_write}
use trixter.Delayer.{dynamic_duration}
use trixter.Delayer.Writer.{delayed_write}
use trixter.Proxy.Api.{ConnectionState, ApiState}
use trixter.Proxy.Api.Handlers as Handlers
use trixter.Proxy.Api.Rates.{AllValid}
use trixter.Proxy.Api.Others.{route-others_kept}
use trixter.Proxy.Finish.{clean_up}
use trixter.Proxy.Task.{Faulty, faulty, entry}
use trixter.Proxy.Task.CleanUp.{CleanedUp, clean_up-CleanedUp}
use trixter.Proxy.Task.Faults.{off, idle-transparent, Terminated, writes-Terminated}
use trixter.Proxy.Task.Table.{Tables-AllValid}
use trixter.Proxy.Task.Table as Steps
use trixter.Fixtures.Proxy.{
  tape_linger, split, local, broken, config, Entries, no_entries, drawn, client, config_knobs,
  its_knobs, none_there, told, same_id, one, two, entries,
}

clean_up-CleanedUp_example :
    CleanedUp (ConnectionState ℕ ℕ Bool) one (err (other terminated_error)) blank blank entries (
      clean_up
        (ConnectionState ℕ ℕ Bool)
        one
        (err (other terminated_error), blank, blank, entries, running))
clean_up-CleanedUp_example =
    clean_up-CleanedUp (ConnectionState ℕ ℕ Bool) table_laws one (err (other terminated_error))
      blank blank entries running tt

abbrev idle_tape : Tape → Faulty Tape ℕ ℕ
idle_tape socket = (faulty socket (off 0 0) drawn running).0

abbrev bytes : List ℕ
bytes = 10 ∷ 11 ∷ 12 ∷ []

idle-transparent_example :
    (corrupter_write.poll_write (idle_tape blank) running bytes
      ≡ forward idle_tape (tape.poll_write blank running bytes))
    × (corrupter_write.poll_write_vectored (idle_tape blank) running (bytes ∷ [])
        ≡ forward idle_tape (tape.poll_write_vectored blank running (bytes ∷ [])))
    × (corrupter_write.poll_flush (idle_tape blank) running
        ≡ forward idle_tape (tape.poll_flush blank running))
    × (corrupter_write.poll_shutdown (idle_tape blank) running
        ≡ forward idle_tape (tape.poll_shutdown blank running))
idle-transparent_example = idle-transparent ℕ drawn 0 0 running blank running bytes (bytes ∷ [])

-- The terminator has triggered, and two bytes of noise are queued above it.
abbrev terminated_stack : Corrupter (Terminator Tape DynamicProbability ℕ) DynamicProbability ℕ
terminated_stack = record {
  inner = record {
    inner = blank;
    prob = record { probability_rate_bits = 0; probability_threshold = 0 };
    rng = 3;
    triggered = true;
  };
  prob = record { probability_rate_bits = 0; probability_threshold = 0 };
  rng = 4;
  write_buffer = some (91 ∷ 92 ∷ []);
}

writes-Terminated_example :
    Terminated blank (corrupter_write.poll_write terminated_stack running bytes)
    × Terminated blank (corrupter_write.poll_write_vectored terminated_stack running (bytes ∷ []))
    × Terminated blank (corrupter_write.poll_flush terminated_stack running)
    × Terminated blank (corrupter_write.poll_shutdown terminated_stack running)
writes-Terminated_example = writes-Terminated terminated_stack running bytes (bytes ∷ []) refl

abbrev too_high : Handlers.Request ℕ ℕ
too_high = Handlers.termination one 130

-- A request for the only connection, whose rate is out of range.
abbrev requested : ApiState ℕ ℕ Bool Entries
requested =
    (Handlers.route too_high
      (record { connections = table.insert no_entries one (entry one client 2 config_knobs true) })
      running).1

Tables-AllValid_example : AllValid percent requested
Tables-AllValid_example = Tables-AllValid percent_laws table_laws same_id (
    Steps.request
      (Steps.connect (Steps.empty no_entries none_there) config config_knobs one client true
        its_knobs)
      too_high running)

abbrev two_open : ApiState ℕ ℕ Bool Entries
two_open = record { connections = entries }

two-ne-one : two ≡ one → ⊥
two-ne-one h = omega (arith, h)

route-others_kept_example :
    table.get (Handlers.route too_high two_open running).1.connections two
    ≡ table.get two_open.connections two
route-others_kept_example = route-others_kept table_laws too_high two_open running two two-ne-one

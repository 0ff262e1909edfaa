-- ===== src/Delayer/Tests.antt =====
-- tokio-netem/src/delayer.rs: examples.
use native.Mathlib.Nat.{le_refl}
use trixter.Prelude.{ℕ, ◌≤◌, ◌≡◌, refl, inr, true, [], ◌∷◌, arith}
use trixter.Tokio.{Polled, ReadContract, pending, ready, panic}
use trixter.Fixtures.{
  Tape, blank, tape, clock_timer, clock, deadline, clock_laws, clock_prompt, Page, page, page_laws,
}
use trixter.Fixtures.Inbox.{Source, source_buf_read, source_fills, gone_from}
use trixter.Delayer.Reader.{DelayedReader, poll_read, delayed_read}
use trixter.Delayer.Reader.Contract.{delayed_read-ReadContract}
use trixter.Delayer.Reader.Timing.{Held, poll_read-Held}
use trixter.Fixtures.Drip.{Drip, drip, budget_spent, HasBytes, drip_full}
use trixter.Delayer.Reader.Full.{Safe, poll_read-Safe}
use trixter.Delayer.Reader.Hazards.{at_rest, poll_read-panics_at_end}
use trixter.Delayer.Writer.Progress.{Called, Waited-Called}
use trixter.Delayer.Knob.{plain_duration}
use trixter.Delayer.Delay.{idle, delayed}
use trixter.Delayer.Writer.{DelayedWriter, new_writer, poll_with_write_delay, delayed_write}
use trixter.Delayer.Writer.Timing.{Outcome, Waited, armed, Waited-Outcome}

abbrev write_one : Tape → ℕ → Polled ℕ Tape ℕ
write_one t cx = tape.poll_write t cx (1 ∷ [])

abbrev early : ℕ
early = 5

abbrev late : ℕ
late = 20

-- A delay of 10, used from the clock's 5.
abbrev lazy : DelayedWriter Tape ℕ ℕ
lazy = new_writer blank 10 early

abbrev waiting : DelayedWriter Tape ℕ ℕ
waiting = (poll_with_write_delay write_one lazy early).1

waiting-Waited : Waited ℕ write_one lazy early waiting
unfolding new_writer poll_with_write_delay trixter.Delayer.Delay.poll
    trixter.Delayer.Delay.maybe_delay
waiting-Waited = armed refl

Waited-Outcome_example :
    Outcome clock_laws write_one 15 waiting (poll_with_write_delay write_one waiting late)
unfolding new_writer
Waited-Outcome_example = Waited-Outcome clock_laws write_one early late refl waiting-Waited

Waited-Called_example :
    Called clock_laws write_one waiting (poll_with_write_delay write_one waiting late)
unfolding new_writer
Waited-Called_example =
    Waited-Called clock_laws write_one clock_prompt early late refl waiting-Waited (omega arith)

delayed_read-ReadContract_example :
    ReadContract page
      (delayed_read {Cx = ℕ} {Sleep = ℕ} {B = Page} {T = Source} {D = ℕ})
      (λ this. gone_from this.inner)
delayed_read-ReadContract_example = delayed_read-ReadContract page_laws source_fills

-- A reader whose sleep ends at 15.
abbrev asleep : DelayedReader Source ℕ ℕ
asleep = record {
  inner = record { gone = []; to_come = 1 ∷ 2 ∷ 3 ∷ [] };
  delay = record { state = delayed; sleep = 15; delay_duration = 10 };
  buf_empty = true;
}

abbrev two_bytes : Page
two_bytes = record { room = 2; text = 9 ∷ [] }

-- It armed its delay when it found three bytes.
abbrev delayed_drip : DelayedReader Drip ℕ ℕ
delayed_drip = record {
  inner = record { to_come = 1 ∷ 2 ∷ 3 ∷ [] };
  delay = record { state = delayed; sleep = 15; delay_duration = 10 };
  buf_empty = true;
}

poll_read-Safe_example : Safe HasBytes (poll_read delayed_drip late two_bytes)
poll_read-Safe_example = poll_read-Safe drip_full delayed_drip late two_bytes (inr refl) (λ i. cc)

-- A stream at its end, read at 5 with a delay of 10, and again at 40.
poll_read-panics_at_end_example :
    let ended : DelayedReader Drip ℕ ℕ = at_rest (record { to_come = [] }) 0 10 in
    ((poll_read ended early two_bytes).0 ≡ pending)
    × ((poll_read (poll_read ended early two_bytes).1 budget_spent two_bytes).0 ≡ ready panic)
poll_read-panics_at_end_example =
    poll_read-panics_at_end (record { to_come = [] }) (record { to_come = [] }) 0 15 15 10 early
      early early budget_spent budget_spent two_bytes two_bytes (omega arith) refl refl refl refl

read_test : (poll_read asleep late two_bytes).2.text ≡ 9 ∷ 1 ∷ 2 ∷ []
unfolding poll_read trixter.Delayer.Delay.poll
read_test = refl

no_turning_back : (t : Source) (cx : ℕ) → clock cx ≤ clock (source_buf_read.poll_fill_buf t cx).2
no_turning_back t cx = le_refl (clock cx)

poll_read-Held_example : Held clock deadline 15 two_bytes (poll_read asleep early two_bytes)
poll_read-Held_example =
    poll_read-Held clock_laws no_turning_back 15 asleep early two_bytes (le_refl 15)

-- ===== src/Proxy/Task/Limit/Tests.antt =====
-- trixter/src/main.rs: an example of the limit of the rate through the adapters of a connection.
use trixter.Prelude.{ℕ, ◌+◌, ◌-◌, ◌*◌, ◌≤◌, [], ◌∷◌, Option, length, arith}
use trixter.Tokio.{Poll, pending, Payload}
use trixter.Tokio.Calls.{created, write, opened, call, read}
use trixter.Fixtures.{Page, page, blank, running, clock_timer, given}
use trixter.Fixtures.Proxy.{split, knobs_at}
use trixter.Fixtures.Noise.{source_of_nines}
use trixter.Fixtures.Duplex.{
  Duplex, duplex_write, duplex_read, duplex_contract, reads_silent, sent_out,
}
use trixter.Probability.{dynamic_threshold}
use trixter.Corrupter.{corrupter_write, corrupter_read}
use trixter.Terminator.{terminator_write, terminator_read}
use trixter.Shutdowner.{Shutdowner, shutdowner_write, shutdowner_read}
use trixter.Shutdowner as Shutdowner
use trixter.Slicer.{sliced_write, sliced_read, dynamic_size}
use trixter.Delayer.{dynamic_duration}
use trixter.Delayer.Writer.{delayed_write, delayed_writer_read}
use trixter.Throttler.{dynamic_rate}
use trixter.Throttler.Bucket.{nanos_per_sec}
use trixter.Throttler.Writer.{throttled_write, throttled_writer_read}
use trixter.Proxy.Task.{Downstream, faulty}
use trixter.Proxy.Task.Limit.{throttler, set_knobs, Life, begun, use_with, downstream_within_rates}

abbrev Stream : Type 0
Stream = Downstream Duplex ℕ ℕ (Poll (Option Payload))

abbrev client : Duplex
client = record { outgoing = blank; incoming = 8 ∷ 9 ∷ [] }

-- The first draw is below 9, so the write makes noise.
abbrev fresh : Stream
fresh = Shutdowner.new (faulty client (knobs_at 3 9) 1 running).0 pending

abbrev at_three : Stream
at_three =
    (shutdowner_write.poll_write (Shutdowner.put_inner fresh (set_knobs fresh.inner (knobs_at 3 9)))
      running (1 ∷ 2 ∷ 3 ∷ [])).1

abbrev empty_page : Page
empty_page = record { room = 8; text = [] }

abbrev at_ten : Stream
at_ten =
    (shutdowner_read.poll_read
      (Shutdowner.put_inner at_three (set_knobs at_three.inner (knobs_at 10 9))) running
      empty_page).1

abbrev life :
    Life ℕ Page
      (λ (t : Stream). t.inner)
      Shutdowner.put_inner
      fresh
      at_ten
      ((throttler fresh.inner).lb.budget * nanos_per_sec
        + 3 * ((throttler at_three.inner).lb.last_update - (throttler fresh.inner).lb.last_update)
        + 10
          * ((throttler at_ten.inner).lb.last_update - (throttler at_three.inner).lb.last_update))
life =
    use_with
      (use_with begun (knobs_at 3 9) (omega arith)
        (call opened (write created running (1 ∷ 2 ∷ 3 ∷ []))))
      (knobs_at 10 9) (omega arith) (read opened running empty_page)

downstream_within_rates_example :
    (length (sent_out (throttler at_ten.inner).inner.inner) + (throttler at_ten.inner).lb.budget)
      * nanos_per_sec
    ≤ length (sent_out (throttler fresh.inner).inner.inner) * nanos_per_sec
      + ((throttler fresh.inner).lb.budget * nanos_per_sec
          + 3 * ((throttler at_three.inner).lb.last_update - (throttler fresh.inner).lb.last_update)
          + 10
            * ((throttler at_ten.inner).lb.last_update - (throttler at_three.inner).lb.last_update))
downstream_within_rates_example = downstream_within_rates duplex_contract reads_silent life

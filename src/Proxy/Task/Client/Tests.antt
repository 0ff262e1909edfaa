-- ===== src/Proxy/Task/Client/Tests.antt =====
-- trixter/src/main.rs: an example of the stream to the client.
use trixter.Prelude.{Option, ℕ, List, [], ◌∷◌, ◌++◌}
use trixter.Tokio.{Poll, pending, Payload}
use trixter.Fixtures.{Page, page, running, clock_timer, given}
use trixter.Fixtures.Proxy.{split, knobs_at}
use trixter.Fixtures.Noise.{source_of_nines}
use trixter.Fixtures.Line.{
  Line, line_write, line_read, line_contract, line_prompt, line_silent, sent_on,
}
use trixter.Drain.Merge.{Woven, reported}
use trixter.Drain.Sends.{left_in}
use trixter.Probability.{dynamic_threshold}
use trixter.Corrupter.{corrupter_write, corrupter_read}
use trixter.Terminator.{terminator_write, terminator_read}
use trixter.Slicer.{sliced_write, sliced_read, dynamic_size}
use trixter.Delayer.{dynamic_duration}
use trixter.Delayer.Writer.{delayed_write, delayed_writer_read}
use trixter.Throttler.{dynamic_rate}
use trixter.Throttler.Writer.{throttled_write, throttled_writer_read}
use trixter.Proxy.Stack.{on_socket}
use trixter.Proxy.Task.{Downstream, faulty}
use trixter.Proxy.Task.Limit.{set_knobs}
use trixter.Proxy.Task.Client.{ClientStream, made_if_open, opened, write, set, downstream-Woven}
use trixter.Shutdowner.{put_inner, shutdowner_write}
use trixter.Shutdowner as Shutdowner

abbrev line : Line
line = record { outgoing = []; incoming = 8 ∷ []; gone = [] }

abbrev fresh : Downstream Line ℕ ℕ (Poll (Option Payload))
fresh = Shutdowner.new (faulty line (knobs_at 100 9) 1 running).0 pending

-- The first draw is below 9, so the write makes noise.
abbrev noisy : Downstream Line ℕ ℕ (Poll (Option Payload))
noisy = (shutdowner_write.poll_write fresh running (1 ∷ 2 ∷ 3 ∷ [])).1

abbrev silenced : Downstream Line ℕ ℕ (Poll (Option Payload))
silenced = put_inner noisy (set_knobs noisy.inner (knobs_at 100 0))

abbrev last : Downstream Line ℕ ℕ (Poll (Option Payload))
last = (shutdowner_write.poll_write silenced running (3 ∷ [])).1

abbrev own : List ℕ
own =
    ([] ++ reported (shutdowner_write.poll_write fresh running (1 ∷ 2 ∷ 3 ∷ [])).0 (1 ∷ 2 ∷ 3 ∷ []))
    ++ reported (shutdowner_write.poll_write silenced running (3 ∷ [])).0 (3 ∷ [])

abbrev noise : List ℕ
noise = ([] ++ made_if_open fresh running) ++ made_if_open silenced running

abbrev stream : ClientStream ℕ Page fresh last own noise
stream = write (set (write opened running (1 ∷ 2 ∷ 3 ∷ [])) (knobs_at 100 0)) running (3 ∷ [])

downstream-Woven_example :
    Woven []
      (left_in last.inner.write_buffer)
      (sent_on line)
      (on_socket sent_on last.inner.inner.inner)
      []
      noise
      own
downstream-Woven_example =
    downstream-Woven line_prompt line_contract line_silent line (knobs_at 100 9) 1 running pending
      stream

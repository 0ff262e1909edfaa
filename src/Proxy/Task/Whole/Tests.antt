-- ===== src/Proxy/Task/Whole/Tests.antt =====
-- trixter/src/main.rs: an example of a stream through the adapters of a connection.
use trixter.Prelude.{ℕ, List, [], ◌∷◌, ◌++◌}
use trixter.Fixtures.{Page, page, running, clock_timer, given}
use trixter.Fixtures.Proxy.{split, knobs_at}
use trixter.Fixtures.Noise.{source_of_nines}
use trixter.Fixtures.Line.{
  Line, line_write, line_read, line_contract, line_prompt, line_silent, sent_on,
}
use trixter.Drain.Merge.{Woven, reported}
use trixter.Drain.Sends.{left_in}
use trixter.Probability.{dynamic_threshold}
use trixter.Corrupter.{corrupter_write, corrupter_read}
use trixter.Corrupter.Queue.{made}
use trixter.Terminator.{terminator_write, terminator_read}
use trixter.Slicer.{sliced_write, sliced_read, dynamic_size}
use trixter.Delayer.{dynamic_duration}
use trixter.Delayer.Writer.{delayed_write, delayed_writer_read}
use trixter.Throttler.{dynamic_rate}
use trixter.Throttler.Writer.{throttled_write, throttled_writer_read}
use trixter.Proxy.Stack.{on_socket}
use trixter.Proxy.Task.{Faulty, faulty}
use trixter.Proxy.Task.Limit.{set_knobs}
use trixter.Proxy.Task.Whole.{Stream, opened, write, read, set, faulty-Woven}

abbrev line : Line
line = record { outgoing = []; incoming = 8 ∷ []; gone = [] }

abbrev fresh : Faulty Line ℕ ℕ
fresh = (faulty line (knobs_at 100 9) 1 running).0

-- The first draw is below 9, so the write makes noise.
abbrev noisy : Faulty Line ℕ ℕ
noisy = (corrupter_write.poll_write fresh running (1 ∷ 2 ∷ 3 ∷ [])).1

abbrev silenced : Faulty Line ℕ ℕ
silenced = set_knobs noisy (knobs_at 100 0)

abbrev empty_page : Page
empty_page = record { room = 4; text = [] }

abbrev after_read : Faulty Line ℕ ℕ
after_read = (corrupter_read.poll_read silenced running empty_page).1

abbrev last : Faulty Line ℕ ℕ
last = (corrupter_write.poll_write after_read running (3 ∷ [])).1

abbrev own : List ℕ
own =
    ([] ++ reported (corrupter_write.poll_write fresh running (1 ∷ 2 ∷ 3 ∷ [])).0 (1 ∷ 2 ∷ 3 ∷ []))
    ++ reported (corrupter_write.poll_write after_read running (3 ∷ [])).0 (3 ∷ [])

abbrev noise : List ℕ
noise =
    ([] ++ made fresh.write_buffer fresh.rng fresh.prob)
    ++ made after_read.write_buffer after_read.rng after_read.prob

-- The first write reports two bytes, and the third is written again, without noise.
abbrev stream : Stream ℕ Page fresh last own noise
stream =
    write (read (set (write opened running (1 ∷ 2 ∷ 3 ∷ [])) (knobs_at 100 0)) running empty_page)
      running (3 ∷ [])

faulty-Woven_example :
    Woven []
      (left_in last.write_buffer)
      (sent_on line)
      (on_socket sent_on last.inner.inner)
      []
      noise
      own
faulty-Woven_example =
    faulty-Woven line_prompt line_contract line_silent line (knobs_at 100 9) 1 running stream

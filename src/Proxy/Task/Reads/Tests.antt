-- ===== src/Proxy/Task/Reads/Tests.antt =====
-- trixter/src/main.rs: an example of reads through the adapters of a connection.
use trixter.Prelude.{ℕ, List, [], ◌∷◌, ◌++◌}
use trixter.Fixtures.{Page, page, running, clock_timer, page_laws, given}
use trixter.Fixtures.Proxy.{split, knobs_at}
use trixter.Fixtures.Noise.{source_of_nines, fills_with_nines}
use trixter.Fixtures.Line.{Line, line_write, line_read, line_gives, line_quiet, gone_off}
use trixter.Probability.{dynamic_threshold}
use trixter.Corrupter.{corrupter_write, poll_read}
use trixter.Terminator.{terminator_write, terminator_read}
use trixter.Slicer.{sliced_write, sliced_read, dynamic_size}
use trixter.Delayer.{dynamic_duration}
use trixter.Delayer.Writer.{delayed_write, delayed_writer_read}
use trixter.Throttler.{dynamic_rate}
use trixter.Throttler.Writer.{throttled_write, throttled_writer_read}
use trixter.Proxy.Task.{Faulty, faulty}
use trixter.Proxy.Task.Limit.{set_knobs}
use trixter.Proxy.Task.Reads.{appended, Handed, opened, read, write_half, set, Noisy, Handed-Noisy}
use trixter.Tokio.Calls.{created, write}

abbrev line : Line
line = record { outgoing = []; incoming = 7 ∷ 8 ∷ []; gone = [] }

abbrev empty_page : Page
empty_page = record { room = 4; text = [] }

-- The first draw is below 9, so the first read finds noise.
abbrev fresh : Faulty Line ℕ ℕ
fresh = (faulty line (knobs_at 100 9) 1 running).0

abbrev noisy : Faulty Line ℕ ℕ
noisy = (poll_read fresh running empty_page).1

-- The second read comes to the socket, after a write.
abbrev silenced : Faulty Line ℕ ℕ
silenced = set_knobs noisy (knobs_at 100 0)

abbrev written : Faulty Line ℕ ℕ
written = (corrupter_write.poll_write silenced running (3 ∷ [])).1

abbrev last : Faulty Line ℕ ℕ
last = (poll_read written running empty_page).1

abbrev got : List ℕ
got =
    ([] ++ appended page empty_page (poll_read fresh running empty_page).2)
    ++ appended page empty_page (poll_read written running empty_page).2

abbrev handed : Handed ℕ Page fresh last got
handed =
    read
      (write_half (set (read opened running empty_page) (knobs_at 100 0))
        (write created running (3 ∷ [])))
      running empty_page

Handed-Noisy_example :
    Noisy
      (gone_off fresh.inner.inner.inner.inner.inner)
      (gone_off last.inner.inner.inner.inner.inner)
      got
Handed-Noisy_example = Handed-Noisy line_gives line_quiet fills_with_nines page_laws handed

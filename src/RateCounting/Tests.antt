-- ===== src/RateCounting/Tests.antt =====
-- tokio-netem/src/utils/rate_counting_reader.rs: examples.
use trixter.Prelude.{true, [], ◌∷◌}
use trixter.Fixtures.{Tape, Page, page, tape_page_read, clock_timer, running}
use trixter.RateCounting.{RateCountingReader, new, reset, poll_read}
use trixter.RateCounting.Totals.{created, read, restarted, Counts, Calls-Counts}

abbrev empty_page : Page
empty_page = record { room = 8; text = [] }

abbrev loaded : Tape
loaded = record { bytes = 1 ∷ 2 ∷ []; flushed = true }

abbrev read_once : RateCountingReader Tape
read_once = (poll_read clock_timer (new loaded) running empty_page).1

Calls-Counts_example : Counts 2 (poll_read clock_timer (reset (new loaded)) running empty_page).1
unfolding reset
Calls-Counts_example = Calls-Counts clock_timer (read (restarted created) running empty_page)

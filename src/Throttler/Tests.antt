-- ===== src/Throttler/Tests.antt =====
-- tokio-netem/src/throttler.rs: examples.
use trixter.Prelude.{true, ℕ, ◌+◌, ◌*◌, ◌≤◌, ◌<◌, ◌^◌, refl, false, [], ◌∷◌, length, arith}
use trixter.Tokio.{WriteContract}
use trixter.Fixtures.{
  Tape, blank, Page, page, page_laws, tape_buf_read, tape_page_read, on_tape, tape, tape_contract,
  clock, clock_timer, clock_laws,
}
use trixter.Fixtures.Inbox.{Source, source_read, source_buf_read, source_fills, gone_from}
use trixter.Throttler.Reader.Limit.{taken_within_rate}
use trixter.Throttler.Reader.Limit as ReaderLimit
use trixter.Throttler.Knob.{usize_rate, usize_steady, dynamic_rate}
use trixter.Throttler.Bucket.{LeakyBucket, nanos_per_sec, poll_acquire}
use trixter.Throttler.Bucket.Wait.{Settled, poll_acquire-Settled}
use trixter.Throttler.Reader.{ThrottledReader}
use trixter.Throttler.Reader
use trixter.Throttler.Reader.Delivery.{Handed, poll_read-Handed}
use trixter.Throttler.Writer.{ThrottledWriter, new_writer, throttled_write}
use trixter.Throttler.Writer.Contract.{throttled_write-WriteContract}
use trixter.Throttler.Writer.Limit.{sent_within_rate}
use trixter.Tokio.Calls.{Calls, created, write}

abbrev early : ℕ
early = 5

abbrev late : ℕ
late = 2_000_000_000

-- Three bytes a second, written from the clock's 5.
abbrev slow : ThrottledWriter Tape ℕ ℕ
slow = (new_writer blank 3 early).0

abbrev after_one : ThrottledWriter Tape ℕ ℕ
after_one = (throttled_write.poll_write slow early (1 ∷ 2 ∷ 3 ∷ 4 ∷ [])).1

abbrev after_two : ThrottledWriter Tape ℕ ℕ
after_two = (throttled_write.poll_write after_one late (5 ∷ 6 ∷ [])).1

abbrev two_writes : Calls ℕ slow after_two
two_writes = write (write created early (1 ∷ 2 ∷ 3 ∷ 4 ∷ [])) late (5 ∷ 6 ∷ [])

sent_within_rate_example :
    length after_two.inner.bytes * nanos_per_sec + 3 * 5
    ≤ (0 + 3) * nanos_per_sec + 3 * after_two.lb.last_update
sent_within_rate_example =
    sent_within_rate usize_steady tape_contract blank 3 early (omega arith) two_writes

throttled_write-WriteContract_example :
    WriteContract
      (throttled_write {Cx = ℕ} {Sleep = ℕ} {T = Tape} {R = ℕ})
      (λ this. on_tape this.inner)
throttled_write-WriteContract_example = throttled_write-WriteContract on_tape tape_contract

abbrev dry : LeakyBucket ℕ ℕ
dry = record { rate = 3; budget = 0; last_update = 5; sleep = 0; sleeping = false }

fits_a_day : (cx : ℕ) → clock cx * 3 < 2 ^ 128
fits_a_day cx = omega arith

poll_acquire-Settled_example : Settled 4 (poll_acquire dry late 4)
poll_acquire-Settled_example =
    poll_acquire-Settled clock_laws 4 3 (omega arith) (omega arith) fits_a_day dry late refl
      (omega arith)

abbrev held : ThrottledReader Tape ℕ ℕ
held = record {
  inner = record { bytes = 1 ∷ 2 ∷ 3 ∷ []; flushed = true };
  lb = record dry { budget = 2 };
}

abbrev empty_page : Page
empty_page = record { room = 8; text = [] }

poll_read-Handed_example :
    let (r, this', buf', cx') = Reader.poll_read held early empty_page in
    Handed page tape_buf_read.consume
      (1 ∷ 2 ∷ 3 ∷ [])
      held.inner
      (poll_acquire held.lb early 3).1
      empty_page
      r
      this'
      buf'
poll_read-Handed_example =
    poll_read-Handed page_laws held early early empty_page (1 ∷ 2 ∷ 3 ∷ []) held.inner (omega arith)
      refl

-- Three bytes a second are read from a stream of five.
abbrev stream : Source
stream = record { gone = []; to_come = 1 ∷ 2 ∷ 3 ∷ 4 ∷ 5 ∷ [] }

abbrev slow_reader : ThrottledReader Source ℕ ℕ
slow_reader = (Reader.new_reader stream 3 early).0

abbrev after_read : ThrottledReader Source ℕ ℕ
after_read = (Reader.poll_read slow_reader early empty_page).1

taken_within_rate_example :
    length (gone_from after_read.inner) * nanos_per_sec + 3 * 5
    ≤ (0 + 3) * nanos_per_sec + 3 * after_read.lb.last_update
taken_within_rate_example =
    taken_within_rate {Sleep = ℕ} usize_steady source_fills stream 3 early (omega arith)
      (ReaderLimit.read ReaderLimit.created early empty_page)

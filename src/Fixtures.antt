-- ===== src/Fixtures.antt =====
-- Concrete instances of the interfaces, for the examples.
pub mod Table
pub mod Inbox
pub mod Duplex
pub mod Line
pub mod Drip
pub mod Noise
pub mod Proxy
use trixter.Prelude.{
  ℕ, zero, suc, ◌+◌, ◌*◌, ◌/◌, ◌^◌, ◌-◌, ◌≤◌, ◌≡◌, refl, min, Bool, true, false, List, [], ◌∷◌,
  ◌++◌, Option, none, some, arith, leb, ltb, ◌==◌, if◌then◌else◌, length, take, concat, drop,
}
use trixter.Tokio.{
  Poll, pending, ready, Result, ok, Payload, Polled, AsyncWrite, AsyncRead, AsyncBufRead, ReadBuf,
  ReadBufLaws, Timer, TimerLaws, PromptTimer, Rng, Float, Receiver, WriteContract, Keeps, Accepts,
}
use trixter.Probability.Checked.{FloatLaws}

-- A tape takes at most four bytes a call; its flush waits as long as the clock stands at 0.
pub record Tape : Type 0 where
  pub bytes : List ℕ
  pub flushed : Bool

-- Two readings of the clock.
abbrev pub stopped : ℕ
stopped = 0

abbrev pub running : ℕ
running = 1

abbrev pub blank : Tape
blank = record { bytes = []; flushed = true }

abbrev at_most_four : List ℕ → ℕ
at_most_four buf = min (length buf) 4

abbrev record_bytes : Tape → List ℕ → Tape
record_bytes t buf = record { bytes = t.bytes ++ take (at_most_four buf) buf; flushed = false }

abbrev flush_at : ℕ → Tape → Polled (Unit {0}) Tape ℕ
flush_at zero t = (pending, t, 0)
flush_at (suc n) t = (ready (ok tt), record t { flushed = true }, suc n)

instance abbrev pub tape : AsyncWrite ℕ Tape
tape = record {
  poll_write = λ t cx buf. (ready (ok (at_most_four buf)), record_bytes t buf, cx);
  poll_flush = λ t cx. flush_at cx t;
  poll_shutdown = λ t cx. (ready (ok tt), t, cx);
  is_write_vectored = λ t. true;
  poll_write_vectored =
      λ t cx bufs. (ready (ok (at_most_four (concat bufs))), record_bytes t (concat bufs), cx);
}

abbrev pub on_tape : Tape → List ℕ
on_tape t = t.bytes

flush_at-Keeps : (cx : ℕ) (t : Tape) → Keeps (flush_at cx t).0 t.bytes (flush_at cx t).1.bytes
flush_at-Keeps zero t = refl
flush_at-Keeps (suc n) t = refl

pub flush_marks :
    (t : Tape) (cx : ℕ)
    → (tape.poll_flush t cx).0 ≡ ready (ok tt)
    → (tape.poll_flush t cx).1.flushed ≡ true
flush_marks t zero h = cc
flush_marks t (suc n) h = refl

pub tape_contract : WriteContract tape on_tape
tape_contract = record {
  write_law = λ t cx buf. (omega arith, refl);
  flush_law = λ t cx. flush_at-Keeps cx t;
  shutdown_law = λ t cx. refl;
  vectored_law = λ t cx bufs. (omega arith, refl);
}

instance abbrev pub tape_read : AsyncRead ℕ (List ℕ) Tape
tape_read = record { poll_read = λ t cx buf. (ready (ok tt), t, buf ++ t.bytes, cx) }

-- A clock that stops after a day; a sleep is its deadline.
abbrev pub clock : ℕ → ℕ
clock cx = min cx 86_400_000_000_000

instance abbrev pub clock_timer : Timer ℕ ℕ
clock_timer = record {
  now = λ cx. (clock cx, cx);
  sleep = λ nanos cx. clock cx + nanos;
  reset = λ s at. at;
  poll_sleep = λ s cx. (if leb s (clock cx) then ready tt else pending, s, cx);
}

abbrev pub deadline : ℕ → ℕ
deadline s = s

pub clock_laws : TimerLaws clock_timer clock deadline
clock_laws = record {
  now_reads = λ cx. refl;
  now_later = λ cx. omega arith;
  reset_deadline = λ s at. refl;
  poll_later = λ s cx. omega arith;
  poll_deadline = λ s cx. refl;
  fires_late = λ s cx h. ground arith;
}

pub clock_prompt : PromptTimer clock_timer clock deadline 0
clock_prompt = record { fires = λ s cx h. ground arith }

instance abbrev pub counter : Rng ℕ
counter = record {
  next_u64 = λ g. (g, suc g);
  fill_bytes = λ g n. ([], g);
  random_range = λ g low high. (low, g);
}

-- Whole percents.
instance abbrev pub percent : Float ℕ
percent = record {
  zero_f64 = 0;
  one_f64 = 100;
  is_nan = λ x. false;
  at_least_zero = λ x. true;
  at_most_zero = λ x. x == 0;
  at_most_one = λ x. leb x 100;
  clamp_unit = λ x. min x 100;
  scale_u64 = λ x. x * (2 ^ 64 - 1) / 100;
  to_bits = λ x. x;
  from_bits = λ x. x;
}

pub percent_laws : FloatLaws percent
percent_laws = record {
  nan_is_below = λ x h. cc;
  clamp_within = λ x low high. ground arith;
  zeros_scale = λ x low h. ground arith;
  bits_back = λ x. refl;
}

-- A receiver is what its poll gives.
instance abbrev pub given : Receiver ℕ (Poll (Option Payload))
given = record { poll_receiver = λ rx cx. (rx, rx, cx) }

-- A caller's buffer with its capacity left, and a tape read from its front.
pub record Page : Type 0 where
  pub room : ℕ
  pub text : List ℕ

instance abbrev pub page : ReadBuf Page
page = record {
  remaining = λ b. b.room;
  filled = λ b. b.text;
  put_slice = λ b xs. record { room = b.room - length xs; text = b.text ++ xs };
}

pub page_laws : ReadBufLaws page
page_laws = record {
  filled-put_slice = λ b xs h. refl;
  remaining-put_slice = λ b xs h. omega arith;
}

instance abbrev pub tape_buf_read : AsyncBufRead ℕ Tape
tape_buf_read = record {
  poll_fill_buf = λ t cx. (ready (ok t.bytes), t, cx);
  consume = λ t amt. record t { bytes = drop amt t.bytes };
}

instance abbrev pub tape_page_read : AsyncRead ℕ Page Tape
tape_page_read = record {
  poll_read = λ t cx b.
      let xs = take b.room t.bytes in
      (
        ready (ok tt),
        record t { bytes = drop b.room t.bytes },
        record { room = b.room - length xs; text = b.text ++ xs },
        cx,
      );
}

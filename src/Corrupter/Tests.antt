-- ===== src/Corrupter/Tests.antt =====
-- tokio-netem/src/corrupter.rs: examples.
use trixter.Prelude.{ℕ, ◌≡◌, refl, ◌≢◌, false, List, [], ◌∷◌, some, none, arith}
use trixter.Tokio.{ready, spin, panic}
use trixter.Fixtures.{
  Tape, blank, on_tape, tape, tape_contract, running, page, tape_buf_read, tape_page_read,
}
use trixter.Fixtures.Noise.{nines, source_of_nines}
use trixter.Probability.{DynamicProbability, dynamic_threshold}
use trixter.Corrupter.{Corrupter, should_corrupt, random_data, poll_write}
use trixter.Drain.Sends.{Queued, left_in}
use trixter.Corrupter.Queue.{poll_write-Queued}
use trixter.Corrupter.Hazards.{poll_write-panics}
use trixter.Slicer.{SlicedWriter, flushing, usize_size, sliced_write}

-- Six bytes of noise are queued; the tape takes four at a time.
abbrev noisy : Corrupter Tape DynamicProbability ℕ
noisy = record {
  inner = blank;
  prob = record { probability_rate_bits = 0; probability_threshold = 0 };
  rng = 3;
  write_buffer = some (91 ∷ 92 ∷ 93 ∷ 94 ∷ 95 ∷ 96 ∷ []);
}

tape_live : (t : Tape) (cx : ℕ) (buf : List ℕ) → (tape.poll_write t cx buf).0 ≢ ready spin
tape_live t cx buf h = cc

poll_write-Queued_example :
    let (r, this', cx') = poll_write noisy running (1 ∷ 2 ∷ []) in
    Queued r
      (1 ∷ 2 ∷ [])
      (91 ∷ 92 ∷ 93 ∷ 94 ∷ 95 ∷ 96 ∷ [])
      (left_in this'.write_buffer)
      []
      (on_tape this'.inner)
poll_write-Queued_example = poll_write-Queued tape_contract tape_live noisy running (1 ∷ 2 ∷ [])

-- The slicer has sent four bytes and waits for the flush; the draw makes one byte of noise.
abbrev owing : Corrupter (SlicedWriter Tape ℕ) DynamicProbability ℕ
owing = record {
  inner = record {
    inner = record { bytes = 1 ∷ 2 ∷ 3 ∷ 4 ∷ []; flushed = false };
    size = 4;
    phase = flushing 4;
  };
  prob = record { probability_rate_bits = 0; probability_threshold = 5 };
  rng = 3;
  write_buffer = none;
}

poll_write-panics_example : (poll_write owing running (1 ∷ 2 ∷ 3 ∷ 4 ∷ [])).0 ≡ ready panic
unfolding random_data nines should_corrupt
poll_write-panics_example =
    poll_write-panics tape_contract owing running (1 ∷ 2 ∷ 3 ∷ 4 ∷ []) 4 refl refl refl refl refl
      (omega arith) refl

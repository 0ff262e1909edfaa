-- ===== src/Slicer/Tests.antt =====
-- tokio-netem/src/slicer.rs: examples.
use trixter.Prelude.{ℕ, arith, true, false, ◌≤◌, ◌≡◌, refl, List, [], ◌∷◌, ◌++◌, take}
use trixter.Tokio.{Poll, ready, ok}
use trixter.Fixtures.{Tape, blank, stopped, running, tape, on_tape, flush_marks, tape_contract}
use trixter.Slicer.{
  writing, flushing, SlicedWriter, wrap, poll_write, poll_write_phase, write_phase, written_phase,
  flush_phase, poll_flush,
}
use trixter.Slicer.Knob.{usize_size}
use trixter.Slicer.Once.{Retries, start, polled, flushed, resized, Retries-poll_write}
use trixter.Slicer.Segment.{poll_write-Flushed}
use trixter.Slicer.Hazards.{poll_write-duplicates, Phantom, poll_write-Phantom}

abbrev fresh : SlicedWriter Tape ℕ
fresh = wrap blank 2

abbrev bytes : List ℕ
bytes = (10 ∷ 11 ∷ 12 ∷ [])

-- Two bytes are on the tape and their flush is owed.
abbrev owing : SlicedWriter Tape ℕ
owing = record {
  inner = record { bytes = (10 ∷ 11 ∷ []); flushed = false };
  size = 2;
  phase = flushing 2;
}

first_poll : poll_write fresh stopped bytes ≡ (Poll.pending, owing, stopped)
unfolding poll_write poll_write_phase write_phase written_phase flush_phase
first_poll = refl

abbrev retried : SlicedWriter Tape ℕ
retried = record (poll_flush (poll_write fresh stopped bytes).1 running).1 { size = 3 }

history : Retries ℕ bytes fresh retried
unfolding poll_write poll_write_phase write_phase written_phase flush_phase
history = resized (flushed (polled start stopped refl tt) running) 3

Retries-poll_write_example :
    (2 ≤ 3)
    × ((poll_write retried running bytes).1.phase ≡ writing)
    × ((poll_write retried running bytes).1.inner.bytes ≡ [] ++ take 2 bytes)
unfolding poll_write poll_write_phase write_phase written_phase flush_phase poll_flush
Retries-poll_write_example =
    Retries-poll_write tape_contract running [] bytes 2 refl refl refl history refl refl

poll_write-Flushed_example : (2 ≤ 2) × ((poll_write fresh running bytes).1.inner.flushed ≡ true)
unfolding poll_write poll_write_phase write_phase written_phase flush_phase
poll_write-Flushed_example =
    poll_write-Flushed tape_contract (λ t. t.flushed ≡ true) flush_marks fresh running bytes 2 refl
      refl refl (omega arith) refl

poll_write-duplicates_example :
    let stuck : SlicedWriter Tape ℕ = record owing { size = 0 } in
    ((poll_write stuck running bytes).0 ≡ ready (ok 3))
    × ((poll_write stuck running bytes).1.inner.bytes ≡ (10 ∷ 11 ∷ 10 ∷ 11 ∷ 12 ∷ []))
    × ((poll_write stuck running bytes).1.phase ≡ flushing 2)
poll_write-duplicates_example =
    poll_write-duplicates tape_contract (record owing { size = 0 }) running [] bytes 2 3 refl refl
      refl refl

-- The first write has brought two bytes to the tape; its caller gives it up and writes another.
poll_write-Phantom_example :
    let given_up = (poll_write fresh stopped bytes).1 in
    let (r, this', cx') = poll_write given_up running (77 ∷ []) in
    Phantom r bytes [] (on_tape given_up.inner) (on_tape this'.inner)
unfolding poll_write poll_write_phase write_phase written_phase flush_phase
poll_write-Phantom_example =
    poll_write-Phantom tape_contract fresh stopped running bytes (77 ∷ []) refl refl refl refl
      (λ h. cc) refl refl

phantom_test : (poll_write owing running (77 ∷ [])).0 ≡ ready (ok 2)
unfolding poll_write poll_write_phase write_phase written_phase flush_phase
phantom_test = refl

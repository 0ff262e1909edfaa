-- ===== src/Slicer.antt =====
-- tokio-netem/src/slicer.rs: the writer that cuts each write to a slice size and flushes after it:
-- `SlicedWriter` and its implementations of the I/O traits. The trait `Size` and the knobs are in
-- `Knob`; the other children hold the proofs.
mod Knob
mod Tests
pub mod Limit
pub mod Writes
pub mod Once
pub mod Segment
pub mod Vectored
pub mod Hazards
pub mod Passes
pub mod Prompt
pub use Knob.*
use trixter.Prelude.{
  ℕ, ◌-◌, min, ◌||◌, List, [], ◌∷◌, leb, ◌==◌, if◌then◌else◌, length, is_empty, take,
}
use trixter.Tokio.{ready, ok, Polled, ready_ok, AsyncWrite, AsyncRead, AsyncBufRead}
use trixter.Io.{ResetLinger, forward, inner_linger, inner_read, inner_buf_read}
use Knob.{Size}

pub data Phase : Type 0 where
  writing : Phase
  flushing : ℕ → Phase

pub record SlicedWriter (T S : Type 0) : Type 0 where
  pub inner : T
  pub size : S
  pub phase : Phase

abbrev pub wrap : {T S : Type 0} → T → S → SlicedWriter T S
wrap inner size = record { inner = inner; size = size; phase = writing }

abbrev put : {T S : Type 0} → SlicedWriter T S → T → SlicedWriter T S
put this inner = record this { inner = inner }

instance abbrev pub sliced_linger :
    {T S : Type 0} ⦃l : ResetLinger T⦄ → ResetLinger (SlicedWriter T S)
sliced_linger = inner_linger (λ this. this.inner) put

instance abbrev pub sliced_buf_read :
    {Cx T S : Type 0} ⦃r : AsyncBufRead Cx T⦄ → AsyncBufRead Cx (SlicedWriter T S)
sliced_buf_read = inner_buf_read (λ this. this.inner) put

instance abbrev pub sliced_read :
    {Cx B T S : Type 0} ⦃r : AsyncRead Cx B T⦄ → AsyncRead Cx B (SlicedWriter T S)
sliced_read = inner_read (λ this. this.inner) put

-- The loop that builds `limited` from `bufs`, with the budget that remains.
pub limit_slices : ℕ → List (List ℕ) → List (List ℕ)
limit_slices remaining [] = []
limit_slices remaining (s ∷ bufs) =
    let fits = leb (length s) remaining in
    let slice = if fits then s else take remaining s in
    let rest = limit_slices (if fits then remaining - length s else 0) bufs in
    if remaining == 0 then [] else slice ∷ rest

module _ {Cx T S : Type 0} ⦃w : AsyncWrite Cx T⦄ ⦃sz : Size S⦄ where
  -- The arm `Phase::Flushing(size)` of both loops.
  pub flush_phase : ℕ → SlicedWriter T S → Cx → Polled ℕ (SlicedWriter T S) Cx
  flush_phase size this cx =
      let (r, inner, cx') = w.poll_flush this.inner cx in
      ready_ok r (record this { inner = inner }) cx'
        (λ _. (ready (ok size), record this { inner = inner; phase = writing }, cx'))

  -- A write came back: `Phase::Flushing(written)`, and the loop goes round to that arm.
  pub written_phase : Polled ℕ T Cx → SlicedWriter T S → Polled ℕ (SlicedWriter T S) Cx
  unfolding flush_phase
  written_phase (r, inner, cx) this =
      ready_ok r (record this { inner = inner }) cx
        (λ written.
          flush_phase written (record this { inner = inner; phase = flushing written }) cx)

  -- The arm `Phase::Writing` of `poll_write`.
  write_phase : SlicedWriter T S → Cx → List ℕ → Polled ℕ (SlicedWriter T S) Cx
  unfolding written_phase
  write_phase this cx buf =
      let chunk_len = min (length buf) (sz.size this.size) in
      if chunk_len == 0
      then (ready (ok 0), this, cx)
      else written_phase (w.poll_write this.inner cx (take chunk_len buf)) this

  poll_write_phase : Phase → SlicedWriter T S → Cx → List ℕ → Polled ℕ (SlicedWriter T S) Cx
  unfolding write_phase
  poll_write_phase writing this cx buf = write_phase this cx buf
  poll_write_phase (flushing size) this cx buf = flush_phase size this cx

  unfoldable pub poll_write : SlicedWriter T S → Cx → List ℕ → Polled ℕ (SlicedWriter T S) Cx
  unfolding poll_write_phase
  poll_write this cx buf =
      if sz.is_zero this.size || is_empty buf
      then forward (put this) (w.poll_write this.inner cx buf)
      else poll_write_phase this.phase this cx buf

  poll_vectored_phase :
      Phase → SlicedWriter T S → Cx → List (List ℕ) → Polled ℕ (SlicedWriter T S) Cx
  unfolding written_phase limit_slices
  poll_vectored_phase writing this cx bufs =
      written_phase (w.poll_write_vectored this.inner cx (limit_slices (sz.size this.size) bufs))
        this
  poll_vectored_phase (flushing size) this cx bufs = flush_phase size this cx

  pub poll_write_vectored : SlicedWriter T S → Cx → List (List ℕ) → Polled ℕ (SlicedWriter T S) Cx
  unfolding poll_vectored_phase
  poll_write_vectored this cx bufs =
      if sz.is_zero this.size || is_empty bufs
      then forward (put this) (w.poll_write_vectored this.inner cx bufs)
      else poll_vectored_phase this.phase this cx bufs

  unfoldable pub poll_flush : SlicedWriter T S → Cx → Polled (Unit {0}) (SlicedWriter T S) Cx
  poll_flush this cx = forward (put this) (w.poll_flush this.inner cx)

  pub poll_shutdown : SlicedWriter T S → Cx → Polled (Unit {0}) (SlicedWriter T S) Cx
  poll_shutdown this cx = forward (put this) (w.poll_shutdown this.inner cx)

  instance unfoldable pub sliced_write : AsyncWrite Cx (SlicedWriter T S)
  unfolding poll_write poll_write_vectored poll_flush poll_shutdown
  sliced_write = record {
    poll_write = poll_write;
    poll_flush = poll_flush;
    poll_shutdown = poll_shutdown;
    is_write_vectored = λ this. w.is_write_vectored this.inner;
    poll_write_vectored = poll_write_vectored;
  }

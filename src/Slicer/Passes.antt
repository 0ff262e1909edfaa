-- ===== src/Slicer/Passes.antt =====
-- tokio-netem/src/slicer.rs: what a sliced writer leaves true of its inner object.
use trixter.Prelude.{ℕ, min, inl, inr, List, ◌||◌, ◌==◌, Bool-cases, length, is_empty, take}
use trixter.Tokio.{Poll, Result, AsyncWrite, AsyncRead}
use trixter.Tokio.Calls.{Preserves, ReadPreserves, ready_ok-holds}
use trixter.Slicer.Knob.{Size}
use trixter.Slicer.{
  Phase, writing, flushing, SlicedWriter, limit_slices, flush_phase, written_phase, write_phase,
  poll_write_phase, poll_write, poll_vectored_phase, poll_write_vectored, poll_flush, poll_shutdown,
  sliced_write, sliced_read,
}

module _ {Cx T S : Type 0} ⦃w : AsyncWrite Cx T⦄ ⦃sz : Size S⦄ {P : T → Type 0}
    (keeps : Preserves w P) where
  flush_phase-holds :
      (size : ℕ) (this : SlicedWriter T S) (cx : Cx)
      → P this.inner
      → P (flush_phase size this cx).1.inner
  unfolding flush_phase
  flush_phase-holds size this cx p =
      let (r, inner, cx') = w.poll_flush this.inner cx in
      let q = keeps.flush this.inner cx p in
      ready_ok-holds (λ (t : SlicedWriter T S). P t.inner) r _ cx' _ q (λ u. q)

  written_phase-holds :
      (r : Poll (Result ℕ)) (inner : T) (cx : Cx) (this : SlicedWriter T S)
      → P inner
      → P (written_phase (r, inner, cx) this).1.inner
  unfolding written_phase
  written_phase-holds r inner cx this p =
      ready_ok-holds (λ (t : SlicedWriter T S). P t.inner) r (record this { inner = inner }) cx
        (λ written.
          flush_phase written (record this { inner = inner; phase = flushing written }) cx)
        p (λ written. flush_phase-holds written _ cx p)

  poll_write_phase-holds :
      (phase : Phase) (this : SlicedWriter T S) (cx : Cx) (buf : List ℕ)
      → P this.inner
      → P (poll_write_phase phase this cx buf).1.inner
  unfolding poll_write_phase write_phase
  poll_write_phase-holds writing this cx buf p =
      let chunk_len = min (length buf) (sz.size this.size) in
      let (r, inner, cx') = w.poll_write this.inner cx (take chunk_len buf) in
      elim (Bool-cases (chunk_len == 0)) [
        | inl z ↦ rw z p
        | inr nz ↦ rw nz (written_phase-holds r inner cx' this (keeps.write this.inner cx _ p))
      ]
  poll_write_phase-holds (flushing size) this cx buf p = flush_phase-holds size this cx p

  poll_vectored_phase-holds :
      (phase : Phase) (this : SlicedWriter T S) (cx : Cx) (bufs : List (List ℕ))
      → P this.inner
      → P (poll_vectored_phase phase this cx bufs).1.inner
  unfolding poll_vectored_phase
  poll_vectored_phase-holds writing this cx bufs p =
      let (r, inner, cx') =
        w.poll_write_vectored this.inner cx (limit_slices (sz.size this.size) bufs) in
      written_phase-holds r inner cx' this (keeps.write_vectored this.inner cx _ p)
  poll_vectored_phase-holds (flushing size) this cx bufs p = flush_phase-holds size this cx p

  pub sliced_write-Preserves :
      Preserves (sliced_write {Cx = Cx} {T = T} {S = S}) (λ this. P this.inner)
  unfolding sliced_write poll_write poll_write_vectored poll_flush poll_shutdown
  sliced_write-Preserves = record {
    write = λ this cx buf p. elim (Bool-cases (sz.is_zero this.size || is_empty buf)) [
      | inl past ↦ rw past (keeps.write this.inner cx buf p)
      | inr slices ↦ rw slices (poll_write_phase-holds this.phase this cx buf p)
    ];
    write_vectored = λ this cx bufs p. elim (Bool-cases (sz.is_zero this.size || is_empty bufs)) [
      | inl past ↦ rw past (keeps.write_vectored this.inner cx bufs p)
      | inr slices ↦ rw slices (poll_vectored_phase-holds this.phase this cx bufs p)
    ];
    flush = λ this cx p. keeps.flush this.inner cx p;
    shutdown = λ this cx p. keeps.shutdown this.inner cx p;
  }

module _ {Cx B T S : Type 0} {P : T → Type 0} where
  pub sliced_read-Preserves :
      ⦃r : AsyncRead Cx B T⦄
      → ReadPreserves r P
      → ReadPreserves (sliced_read {Cx = Cx} {B = B} {T = T} {S = S}) (λ this. P this.inner)
  sliced_read-Preserves keeps = record { read = λ this cx buf p. keeps.read this.inner cx buf p }

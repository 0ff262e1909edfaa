-- ===== src/Slicer/Segment.antt =====
-- tokio-netem/src/slicer.rs: a segment is no longer than the slice size, and flushed when it is reported.
use trixter.Prelude.{
  ℕ, ◌≤◌, ◌<◌, min, ◌≡◌, subst, false, List, arith, length, length-take, take, is_empty, Bool-cases,
  inl, inr, ◌==◌,
}
use trixter.Tokio.{
  Poll, pending, ready, Result, ok, err, panic, spin, AsyncWrite, WriteContract, Accepts,
}
use trixter.Slicer.{
  Phase, writing, flushing, SlicedWriter, Size, poll_write, flush_phase, written_phase, write_phase,
  poll_write_phase,
}

module _ {Cx T S : Type 0} ⦃w : AsyncWrite Cx T⦄ ⦃sz : Size S⦄ {sent : T → List ℕ}
    (c : WriteContract w sent) (Flushed : T → Type 0)
    (flush : (t : T) (cx : Cx)
      → (w.poll_flush t cx).0 ≡ ready (ok tt)
      → Flushed (w.poll_flush t cx).1) where
  flush_phase-Flushed :
      (size n : ℕ) (this : SlicedWriter T S) (cx : Cx)
      → (flush_phase size this cx).0 ≡ ready (ok n)
      → (n ≡ size) × Flushed (flush_phase size this cx).1.inner
  unfolding flush_phase
  flush_phase-Flushed size n this cx h = ground (arith, flush this.inner cx)

  written_phase-Flushed :
      (r : Poll (Result ℕ)) (inner : T) (cx : Cx) (this : SlicedWriter T S) (n : ℕ)
      → (written_phase (r, inner, cx) this).0 ≡ ready (ok n)
      → (r ≡ ready (ok n)) × Flushed (written_phase (r, inner, cx) this).1.inner
  unfolding written_phase
  written_phase-Flushed (ready (ok m)) inner cx this n h =
      ground (arith, flush_phase-Flushed m n (record this { inner = inner; phase = flushing m }) cx)
  written_phase-Flushed pending inner cx this n h = cc
  written_phase-Flushed (ready (err e)) inner cx this n h = cc
  written_phase-Flushed (ready panic) inner cx this n h = cc
  written_phase-Flushed (ready spin) inner cx this n h = cc

  write_phase-Flushed :
      (this : SlicedWriter T S) (cx : Cx) (buf : List ℕ) (n : ℕ)
      → (write_phase this cx buf).0 ≡ ready (ok n)
      → (n ≤ sz.size this.size) × (0 < n → Flushed (write_phase this cx buf).1.inner)
  unfolding write_phase
  write_phase-Flushed this cx buf n =
      let chunk_len = min (length buf) (sz.size this.size) in
      let chunk = take chunk_len buf in
      elim (Bool-cases (chunk_len == 0)) [
        | inl z ↦ rw z (λ h. ground arith)
        | inr nz ↦
            let (r, inner, cx') = w.poll_write this.inner cx chunk in
            rw nz λ h.
              let (written, flushed) = written_phase-Flushed r inner cx' this n h in
              let law : n ≤ length chunk =
                (subst (λ x. Accepts x chunk (sent this.inner) (sent inner)) written
                  (c.write_law this.inner cx chunk)).0 in
              (omega (arith, length-take chunk_len buf), λ _. flushed)
      ]

  poll_write_phase-Flushed :
      (phase : Phase) (this : SlicedWriter T S) (cx : Cx) (buf : List ℕ) (n : ℕ)
      → phase ≡ writing
      → (poll_write_phase phase this cx buf).0 ≡ ready (ok n)
      → (n ≤ sz.size this.size) × (0 < n → Flushed (poll_write_phase phase this cx buf).1.inner)
  unfolding poll_write_phase
  poll_write_phase-Flushed writing this cx buf n p = write_phase-Flushed this cx buf n
  poll_write_phase-Flushed (flushing m) this cx buf n p = cc

  -- A write from a writer that owes no flush, with a slice size that is not 0 and a buffer that is
  -- not empty, which reports bytes: they are no more than the slice size, and its last call on the
  -- inner writer was a flush that succeeded, told by a predicate which such a flush makes true.
  pub poll_write-Flushed :
      (this : SlicedWriter T S) (cx : Cx) (buf : List ℕ) (n : ℕ)
      → this.phase ≡ writing
      → sz.is_zero this.size ≡ false
      → is_empty buf ≡ false
      → 0 < n
      → (poll_write this cx buf).0 ≡ ready (ok n)
      → (n ≤ sz.size this.size) × Flushed (poll_write this cx buf).1.inner
  unfolding poll_write
  poll_write-Flushed this cx buf n p z e pos =
      rw (z, e)
        λ h.
          let (short, flushed) = poll_write_phase-Flushed this.phase this cx buf n p h in
          (short, flushed pos)

-- ===== src/Slicer/Prompt.antt =====
-- tokio-netem/src/slicer.rs: a sliced writer over an inner writer whose flush succeeds at once.
use trixter.Prelude.{
  ℕ, min, ◌≡◌, refl, inl, inr, List, ◌==◌, ◌||◌, Bool-cases, length, take, is_empty, arith, concat,
}
use trixter.Tokio.{
  Poll, pending, ready, Result, ok, err, panic, spin, AsyncWrite, AsyncRead, WriteContract, Accepts,
}
use trixter.Tokio.Calls.{Preserves, WriteContractOn, ReadPreserves}
use trixter.Slicer.{
  Phase, writing, flushing, SlicedWriter, Size, flush_phase, written_phase, write_phase,
  poll_write_phase, poll_write, poll_vectored_phase, poll_write_vectored, poll_flush, poll_shutdown,
  limit_slices, sliced_write, sliced_read,
}
use trixter.Slicer.Vectored.{poll_write_vectored-Written}
use trixter.Slicer.Writes.{Written, poll_write-Written, Owes-of_writing}

-- No flush is owed.
abbrev pub Idle : {T S : Type 0} → SlicedWriter T S → Type 0
Idle this = this.phase ≡ writing

module _ {T S : Type 0} (sent : T → List ℕ) where
  -- A write that leaves no flush owed has kept the promise of a writer.
  Accepts-Written :
      (r : Poll (Result ℕ)) (this : SlicedWriter T S) (past buf : List ℕ)
      → Idle this
      → Written sent r this past buf
      → Accepts r buf past (sent this.inner)
  Accepts-Written pending this past buf i o = ground arith
  Accepts-Written (ready (ok n)) this past buf i o = (o.0, o.2)
  Accepts-Written (ready (err e)) this past buf i o = ground arith
  Accepts-Written (ready panic) this past buf i o = o
  Accepts-Written (ready spin) this past buf i o = ground arith

module _ {Cx T S : Type 0} ⦃w : AsyncWrite Cx T⦄ ⦃sz : Size S⦄
    (prompt : (t : T) (cx : Cx) → (w.poll_flush t cx).0 ≡ ready (ok tt)) where
  flush_phase-Idle :
      (size : ℕ) (this : SlicedWriter T S) (cx : Cx) → Idle (flush_phase size this cx).1
  unfolding flush_phase
  flush_phase-Idle size this cx = rw (prompt this.inner cx) refl

  written_phase-Idle :
      (r : Poll (Result ℕ)) (inner : T) (cx : Cx) (this : SlicedWriter T S)
      → Idle this
      → Idle (written_phase (r, inner, cx) this).1
  unfolding written_phase
  written_phase-Idle pending inner cx this i = i
  written_phase-Idle (ready (ok n)) inner cx this i = flush_phase-Idle n _ cx
  written_phase-Idle (ready (err e)) inner cx this i = i
  written_phase-Idle (ready panic) inner cx this i = i
  written_phase-Idle (ready spin) inner cx this i = i

  poll_write_phase-Idle :
      (phase : Phase) (this : SlicedWriter T S) (cx : Cx) (buf : List ℕ)
      → Idle this
      → Idle (poll_write_phase phase this cx buf).1
  unfolding poll_write_phase write_phase
  poll_write_phase-Idle writing this cx buf i =
      let chunk_len = min (length buf) (sz.size this.size) in
      let (r, inner, cx') = w.poll_write this.inner cx (take chunk_len buf) in
      elim (Bool-cases (chunk_len == 0)) [
        | inl z ↦ rw z i
        | inr nz ↦ rw nz (written_phase-Idle r inner cx' this i)
      ]
  poll_write_phase-Idle (flushing size) this cx buf i = flush_phase-Idle size this cx

  poll_vectored_phase-Idle :
      (phase : Phase) (this : SlicedWriter T S) (cx : Cx) (bufs : List (List ℕ))
      → Idle this
      → Idle (poll_vectored_phase phase this cx bufs).1
  unfolding poll_vectored_phase
  poll_vectored_phase-Idle writing this cx bufs i =
      let (r, inner, cx') =
        w.poll_write_vectored this.inner cx (limit_slices (sz.size this.size) bufs) in
      written_phase-Idle r inner cx' this i
  poll_vectored_phase-Idle (flushing size) this cx bufs i = flush_phase-Idle size this cx

  -- No call leaves a flush owed.
  pub sliced_write-Idle : Preserves (sliced_write {Cx = Cx} {T = T} {S = S}) Idle
  unfolding sliced_write poll_write poll_write_vectored poll_flush poll_shutdown
  sliced_write-Idle = record {
    write = λ this cx buf i. elim (Bool-cases (sz.is_zero this.size || is_empty buf)) [
      | inl past ↦ rw past i
      | inr slices ↦ rw slices (poll_write_phase-Idle this.phase this cx buf i)
    ];
    write_vectored = λ this cx bufs i. elim (Bool-cases (sz.is_zero this.size || is_empty bufs)) [
      | inl past ↦ rw past i
      | inr slices ↦ rw slices (poll_vectored_phase-Idle this.phase this cx bufs i)
    ];
    flush = λ this cx i. i;
    shutdown = λ this cx i. i;
  }

  sliced-Accepts :
      {sent : T → List ℕ}
      → WriteContract w sent
      → (this : SlicedWriter T S) (cx : Cx) (buf : List ℕ) → Idle this
      → let (r, this', cx') = poll_write this cx buf in
        Accepts r buf (sent this.inner) (sent this'.inner)
  unfolding poll_write sliced_write
  sliced-Accepts {sent} c this cx buf i =
      let past = sent this.inner in
      elim (Bool-cases (sz.is_zero this.size || is_empty buf)) [
        | inl passed ↦ rw passed (c.write_law this.inner cx buf)
        | inr slices ↦
            Accepts-Written sent (poll_write this cx buf).0 (poll_write this cx buf).1 past buf
              (sliced_write-Idle.write this cx buf i)
              (poll_write-Written c this cx past buf (ground arith) (ground arith)
                (Owes-of_writing c this past buf i refl))
      ]

  vectored-Accepts :
      {sent : T → List ℕ}
      → WriteContract w sent
      → (this : SlicedWriter T S) (cx : Cx) (bufs : List (List ℕ)) → Idle this
      → let (r, this', cx') = poll_write_vectored this cx bufs in
        Accepts r (concat bufs) (sent this.inner) (sent this'.inner)
  unfolding poll_write_vectored sliced_write
  vectored-Accepts {sent} c this cx bufs i =
      let past = sent this.inner in
      elim (Bool-cases (sz.is_zero this.size || is_empty bufs)) [
        | inl passed ↦ rw passed (c.vectored_law this.inner cx bufs)
        | inr slices ↦
            Accepts-Written sent (poll_write_vectored this cx bufs).0
              (poll_write_vectored this cx bufs).1 past (concat bufs)
              (sliced_write-Idle.write_vectored this cx bufs i)
              (poll_write_vectored-Written c this cx past bufs (ground arith) (ground arith)
                (Owes-of_writing c this past (concat bufs) i refl))
      ]

  -- While no flush is owed, the contract of a writer is kept.
  pub sliced_write-WriteContractOn :
      {sent : T → List ℕ}
      → WriteContract w sent
      → WriteContractOn (sliced_write {Cx = Cx} {T = T} {S = S}) Idle (λ this. sent this.inner)
  unfolding sliced_write poll_flush poll_shutdown
  sliced_write-WriteContractOn {sent} c = record {
    keeps = sliced_write-Idle;
    write_law = sliced-Accepts c;
    flush_law = λ this cx i. c.flush_law this.inner cx;
    shutdown_law = λ this cx i. c.shutdown_law this.inner cx;
    vectored_law = vectored-Accepts c;
  }

-- Nor does a read leave one owed.
pub sliced_read-Idle :
    {Cx B T S : Type 0} ⦃r : AsyncRead Cx B T⦄
    → ReadPreserves (sliced_read {Cx = Cx} {B = B} {T = T} {S = S}) Idle
sliced_read-Idle = record { read = λ this cx buf i. i }

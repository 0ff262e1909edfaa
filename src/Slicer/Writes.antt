-- ===== src/Slicer/Writes.antt =====
-- tokio-netem/src/slicer.rs: what a sequence of polls of one `write` sends.
use trixter.Prelude.{
  ℕ, ◌≤◌, min, ◌≡◌, refl, inl, inr, false, List, ◌++◌, arith, ◌==◌, Bool-cases, length, take,
  length-take, take-take, is_empty, sym, subst, ◌∙◌, append-nil,
}
use trixter.Tokio.{
  Poll, pending, ready, Result, ok, err, panic, spin, AsyncWrite, WriteContract, Accepts,
}
use trixter.Slicer.{
  Phase, writing, flushing, SlicedWriter, Size, flush_phase, written_phase, write_phase,
  poll_write_phase, poll_write,
}

abbrev Debt : Phase → List ℕ → List ℕ → List ℕ → Type 0
Debt writing now past buf = now ≡ past
Debt (flushing n) now past buf = (n ≤ length buf) × (now ≡ past ++ take n buf)

abbrev pub Owes : {T S : Type 0} → (T → List ℕ) → SlicedWriter T S → List ℕ → List ℕ → Type 0
Owes sent this past buf = Debt this.phase (sent this.inner) past buf

abbrev pub Written :
    {T S : Type 0} → (T → List ℕ) → Poll (Result ℕ) → SlicedWriter T S → List ℕ → List ℕ → Type 0
Written sent pending this past buf = Owes sent this past buf
Written sent (ready (ok n)) this past buf =
    (n ≤ length buf) × (this.phase ≡ writing) × (sent this.inner ≡ past ++ take n buf)
Written sent (ready (err e)) this past buf = Owes sent this past buf
Written sent (ready panic) this past buf = ⊥
Written sent (ready spin) this past buf = Owes sent this past buf

module _ {Cx T S : Type 0} ⦃w : AsyncWrite Cx T⦄ ⦃sz : Size S⦄ {sent : T → List ℕ}
    (c : WriteContract w sent) where
  pub flush_phase-Written :
      (n : ℕ) (this : SlicedWriter T S) (cx : Cx) (past buf : List ℕ)
      → this.phase ≡ flushing n
      → Owes sent this past buf
      → Written sent (flush_phase n this cx).0 (flush_phase n this cx).1 past buf
  unfolding flush_phase
  flush_phase-Written n this cx past buf p o = ground (arith, c.flush_law this.inner cx)

  pub Owes-of_writing :
      (this : SlicedWriter T S) (past buf : List ℕ)
      → this.phase ≡ writing
      → sent this.inner ≡ past
      → Owes sent this past buf
  Owes-of_writing this past buf p o = ground arith

  -- The inner writer was given at most `k` bytes, from a state that owes nothing.
  pub written_phase-Written :
      (r : Poll (Result ℕ)) (inner : T) (cx : Cx) (this : SlicedWriter T S) (k : ℕ)
      (past buf : List ℕ)
      → Accepts r (take k buf) past (sent inner)
      → this.phase ≡ writing
      → Written sent
          (written_phase (r, inner, cx) this).0
          (written_phase (r, inner, cx) this).1
          past
          buf
  unfolding written_phase
  written_phase-Written pending inner cx this k past buf a p =
      Owes-of_writing (record this { inner = inner }) past buf p a
  written_phase-Written (ready (ok n)) inner cx this k past buf a p =
      let short : n ≤ k = omega (arith, length-take k buf, a.0) in
      flush_phase-Written n (record this { inner = inner; phase = flushing n }) cx past buf refl
        (omega (arith, length-take k buf, a.0), rw (← take-take n k buf short) a.1)
  written_phase-Written (ready (err e)) inner cx this k past buf a p =
      Owes-of_writing (record this { inner = inner }) past buf p a
  written_phase-Written (ready panic) inner cx this k past buf a p = a
  written_phase-Written (ready spin) inner cx this k past buf a p =
      Owes-of_writing (record this { inner = inner }) past buf p a

  write_phase-Written :
      (this : SlicedWriter T S) (cx : Cx) (past buf : List ℕ)
      → this.phase ≡ writing
      → sent this.inner ≡ past
      → Written sent (write_phase this cx buf).0 (write_phase this cx buf).1 past buf
  unfolding write_phase
  write_phase-Written this cx past buf p o =
      let chunk_len = min (length buf) (sz.size this.size) in
      elim (Bool-cases (chunk_len == 0)) [
        | inl z ↦ rw z (omega arith, p, o ∙ sym (append-nil past))
        | inr nz ↦
            let chunk = take chunk_len buf in
            let (r, inner, cx') = w.poll_write this.inner cx chunk in
            rw nz (
              written_phase-Written r inner cx' this chunk_len past buf
                (subst (λ old. Accepts r chunk old (sent inner)) o
                  (c.write_law this.inner cx chunk))
                p)
      ]

  poll_write_phase-Written :
      (phase : Phase) (this : SlicedWriter T S) (cx : Cx) (past buf : List ℕ)
      → this.phase ≡ phase
      → Owes sent this past buf
      → Written sent
          (poll_write_phase phase this cx buf).0
          (poll_write_phase phase this cx buf).1
          past
          buf
  unfolding poll_write_phase
  poll_write_phase-Written writing this cx past buf p o =
      write_phase-Written this cx past buf p (ground arith)
  poll_write_phase-Written (flushing n) this cx past buf p o =
      flush_phase-Written n this cx past buf p o

  -- One poll of a write, with a slice size that is not 0 and a buffer that is not empty, by a caller
  -- that offers the same bytes again while a flush is owed. A poll that is pending or fails leaves
  -- the debt; a finished one has sent exactly the bytes that it reports, after those of the past.
  pub poll_write-Written :
      (this : SlicedWriter T S) (cx : Cx) (past buf : List ℕ)
      → sz.is_zero this.size ≡ false
      → is_empty buf ≡ false
      → Owes sent this past buf
      → Written sent (poll_write this cx buf).0 (poll_write this cx buf).1 past buf
  unfolding poll_write
  poll_write-Written this cx past buf z e o =
      rw (z, e) (poll_write_phase-Written this.phase this cx past buf refl o)

-- ===== src/Slicer/Hazards.antt =====
-- tokio-netem/src/slicer.rs: what happens when a flush is owed and the caller or the knob changes.
use trixter.Prelude.{ℕ, ◌≡◌, ◌≢◌, refl, subst, true, false, List, ◌++◌, arith, take, is_empty}
use trixter.Tokio.{Poll, pending, ready, Result, ok, err, panic, spin, AsyncWrite, WriteContract}
use trixter.Slicer.Writes.{Owes, Written, poll_write-Written, Owes-of_writing}
use trixter.Slicer.{
  Phase, writing, flushing, SlicedWriter, Size, poll_write, poll_write_phase, flush_phase,
}

-- A second write came to `r` and took what was sent from `now` to `later`: nothing was sent; a count
-- that it reports is that of the bytes of `buf` that the first write had sent after `past`.
abbrev pub Phantom : Poll (Result ℕ) → List ℕ → List ℕ → List ℕ → List ℕ → Type 0
Phantom pending buf past now later = later ≡ now
Phantom (ready (ok m)) buf past now later = (later ≡ now) × (now ≡ past ++ take m buf)
Phantom (ready (err e)) buf past now later = later ≡ now
Phantom (ready panic) buf past now later = ⊥
Phantom (ready spin) buf past now later = later ≡ now

module _ {Cx T S : Type 0} ⦃w : AsyncWrite Cx T⦄ ⦃sz : Size S⦄ {sent : T → List ℕ}
    (c : WriteContract w sent) where
  -- A write of `buf` has sent its first `n` bytes and waits for the flush; the knob is set to 0, and
  -- the caller polls again. If the inner writer now takes `m` bytes, they are again the first ones of
  -- `buf`, behind the `n` that it has, and the flush stays owed.
  pub poll_write-duplicates :
      (this : SlicedWriter T S) (cx : Cx) (past buf : List ℕ) (n m : ℕ)
      → this.phase ≡ flushing n
      → sent this.inner ≡ past ++ take n buf
      → sz.is_zero this.size ≡ true
      → (w.poll_write this.inner cx buf).0 ≡ ready (ok m)
      → ((poll_write this cx buf).0 ≡ ready (ok m))
        × (sent (poll_write this cx buf).1.inner ≡ (past ++ take n buf) ++ take m buf)
        × ((poll_write this cx buf).1.phase ≡ flushing n)
  unfolding poll_write
  poll_write-duplicates this cx past buf n m p o z h =
      rw z (ground (arith, c.write_law this.inner cx buf))

  -- A flush that succeeds is answered with its count, whatever buffer the write is given.
  pub poll_write-reports_old :
      (this : SlicedWriter T S) (cx : Cx) (buf : List ℕ) (n : ℕ)
      → this.phase ≡ flushing n
      → sz.is_zero this.size ≡ false
      → is_empty buf ≡ false
      → (w.poll_flush this.inner cx).0 ≡ ready (ok tt)
      → ((poll_write this cx buf).0 ≡ ready (ok n))
        × (sent (poll_write this cx buf).1.inner ≡ sent this.inner)
  unfolding poll_write poll_write_phase flush_phase
  poll_write-reports_old this cx buf n p z e h =
      rw (z, e, p, poll_write_phase) (ground (arith, c.flush_law this.inner cx))

  -- A write that owes a flush takes the buffer that it is given for the old one.
  owing-Phantom :
      (phase : Phase) (this : SlicedWriter T S) (cx : Cx) (past buf buf' : List ℕ)
      → this.phase ≡ phase
      → Owes sent this past buf
      → sent this.inner ≢ past
      → sz.is_zero this.size ≡ false
      → is_empty buf' ≡ false
      → let (r, this', cx') = poll_write this cx buf' in
        Phantom r buf past (sent this.inner) (sent this'.inner)
  unfolding poll_write poll_write_phase flush_phase
  owing-Phantom writing this cx past buf buf' p o moved z e = absurd (moved (ground arith))
  owing-Phantom (flushing n) this cx past buf buf' p o moved z e =
      rw (z, e, p, poll_write_phase) (ground (arith, c.flush_law this.inner cx))

  -- A write of `buf` is pending although some of its bytes were sent, and its caller gives it up and
  -- writes `buf'`, with a slice size that is not 0 and no buffer empty. Then no byte of `buf'` is sent,
  -- whatever comes of the second write; and if it reports that `m` bytes of `buf'` were written,
  -- these are the `m` bytes of `buf` that were sent before.
  pub poll_write-Phantom :
      (this : SlicedWriter T S) (cx later : Cx) (buf buf' : List ℕ)
      → this.phase ≡ writing
      → sz.is_zero this.size ≡ false
      → is_empty buf ≡ false
      → (poll_write this cx buf).0 ≡ pending
      → sent (poll_write this cx buf).1.inner ≢ sent this.inner
      → sz.is_zero (poll_write this cx buf).1.size ≡ false
      → is_empty buf' ≡ false
      → let given_up = (poll_write this cx buf).1 in
        let (r, this', cx') = poll_write given_up later buf' in
        Phantom r buf (sent this.inner) (sent given_up.inner) (sent this'.inner)
  poll_write-Phantom this cx later buf buf' p z e waits moved z' e' =
      let given_up = (poll_write this cx buf).1 in
      let owes =
        subst (λ r. Written sent r given_up (sent this.inner) buf) waits
          (poll_write-Written c this cx (sent this.inner) buf z e
            (Owes-of_writing c this (sent this.inner) buf p refl)) in
      owing-Phantom given_up.phase given_up later (sent this.inner) buf buf' refl owes moved z' e'

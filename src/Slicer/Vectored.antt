-- ===== src/Slicer/Vectored.antt =====
-- tokio-netem/src/slicer.rs: vectored writes.
use trixter.Prelude.{ℕ, ◌≡◌, refl, subst, false, List, arith, take, is_empty, concat}
use trixter.Tokio.{AsyncWrite, WriteContract, Accepts}
use trixter.Slicer.{
  Phase, writing, flushing, SlicedWriter, Size, poll_write_vectored, poll_vectored_phase,
  limit_slices,
}
use trixter.Slicer.Limit.{concat-limit_slices}
use trixter.Slicer.Writes.{Owes, Written, written_phase-Written, flush_phase-Written}

module _ {Cx T S : Type 0} ⦃w : AsyncWrite Cx T⦄ ⦃sz : Size S⦄ {sent : T → List ℕ}
    (c : WriteContract w sent) where
  limited-Accepts :
      (this : SlicedWriter T S) (cx : Cx) (k : ℕ) (bufs : List (List ℕ))
      → Accepts
          (w.poll_write_vectored this.inner cx (limit_slices k bufs)).0
          (take k (concat bufs))
          (sent this.inner)
          (sent (w.poll_write_vectored this.inner cx (limit_slices k bufs)).1)
  limited-Accepts this cx k bufs =
      let limited = limit_slices k bufs in
      let (r, inner, _) = w.poll_write_vectored this.inner cx limited in
      subst (λ bytes. Accepts r bytes (sent this.inner) (sent inner)) (concat-limit_slices k bufs)
        (c.vectored_law this.inner cx limited)

  poll_vectored_phase-Written :
      (phase : Phase) (this : SlicedWriter T S) (cx : Cx) (past : List ℕ) (bufs : List (List ℕ))
      → this.phase ≡ phase
      → Owes sent this past (concat bufs)
      → Written sent
          (poll_vectored_phase phase this cx bufs).0
          (poll_vectored_phase phase this cx bufs).1
          past
          (concat bufs)
  unfolding poll_vectored_phase
  poll_vectored_phase-Written writing this cx past bufs p o =
      let k = sz.size this.size in
      let (r, inner, cx') = w.poll_write_vectored this.inner cx (limit_slices k bufs) in
      let clear : sent this.inner ≡ past = ground arith in
      written_phase-Written c r inner cx' this k past (concat bufs)
        (subst (λ old. Accepts r (take k (concat bufs)) old (sent inner)) clear
          (limited-Accepts this cx k bufs))
        p
  poll_vectored_phase-Written (flushing n) this cx past bufs p o =
      flush_phase-Written c n this cx past (concat bufs) p o

  -- One poll of a vectored write, with a slice size that is not 0 and at least one buffer, by a
  -- caller that offers the same bytes again while a flush is owed: the bytes are those of all the
  -- buffers in a row, and what holds of them is what holds of a plain write.
  pub poll_write_vectored-Written :
      (this : SlicedWriter T S) (cx : Cx) (past : List ℕ) (bufs : List (List ℕ))
      → sz.is_zero this.size ≡ false
      → is_empty bufs ≡ false
      → Owes sent this past (concat bufs)
      → Written sent
          (poll_write_vectored this cx bufs).0
          (poll_write_vectored this cx bufs).1
          past
          (concat bufs)
  unfolding poll_write_vectored
  poll_write_vectored-Written this cx past bufs z e o =
      rw (z, e) (poll_vectored_phase-Written this.phase this cx past bufs refl o)

-- ===== src/Corrupter/Hazards.antt =====
-- tokio-netem/src/corrupter.rs over tokio-netem/src/slicer.rs: a corrupter that draws again while the
-- sliced writer under it owes a flush.
use trixter.Prelude.{ℕ, ◌<◌, ◌≡◌, refl, true, false, List, none, length, is_empty}
use trixter.Tokio.{ready, ok, panic, AsyncWrite, Rng, WriteContract}
use trixter.Probability.{Probability}
use trixter.Drain.Over.{drain-panics}
use trixter.Slicer.{flushing, SlicedWriter, Size, sliced_write}
use trixter.Slicer.Hazards.{poll_write-reports_old}
use trixter.Corrupter.{
  Corrupter, should_corrupt, random_data, write_drained, write_queued, write_from, poll_write,
}

module _ {Cx T S P G : Type 0} ⦃w : AsyncWrite Cx T⦄ ⦃sz : Size S⦄ ⦃pr : Probability P⦄ ⦃rn : Rng G⦄
    {sent : T → List ℕ} (c : WriteContract w sent) where
  -- A corrupter without noise queued, over a sliced writer that owes the flush of `n` bytes, with a
  -- slice size that is not 0: when its write is polled again, the draw hits and makes some noise, but
  -- less than `n` bytes, and the flush succeeds, the write panics. For the slicer takes the noise
  -- for the write that it owes the answer of, and reports `n` bytes of it.
  pub poll_write-panics :
      (this : Corrupter (SlicedWriter T S) P G) (cx : Cx) (buf : List ℕ) (n : ℕ)
      → let noise = (random_data (should_corrupt this.rng this.prob).1).0 in
        this.write_buffer ≡ none
        → this.inner.phase ≡ flushing n
        → sz.is_zero this.inner.size ≡ false
        → (should_corrupt this.rng this.prob).0 ≡ true
        → is_empty noise ≡ false
        → length noise < n
        → (w.poll_flush this.inner.inner cx).0 ≡ ready (ok tt)
        → (poll_write this cx buf).0 ≡ ready panic
  unfolding poll_write write_from write_queued write_drained sliced_write
  poll_write-panics this cx buf n idle owed z hit some short flushes =
      let noise = (random_data (should_corrupt this.rng this.prob).1).0 in
      let reports = (poll_write-reports_old c this.inner cx noise n owed z some flushes).0 in
      rw (idle, hit, drain-panics this.inner cx noise n some short reports) refl

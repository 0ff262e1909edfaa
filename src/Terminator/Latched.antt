-- ===== src/Terminator/Latched.antt =====
-- tokio-netem/src/terminator.rs: a terminated stream stays terminated.
use trixter.Prelude.{ℕ, ◌≡◌, refl, true, List, arith}
use trixter.Tokio.{ready, err, Polled, AsyncWrite, AsyncRead, AsyncBufRead, Rng}
use trixter.Io.{forward}
use trixter.Probability.{Probability, try_trigger}
use trixter.Terminator.{
  Terminator, put_inner, terminated, unless_triggered, poll_read, terminator_write, terminator_read,
  terminator_buf_read,
}

module _ {Cx T P G : Type 0} ⦃pr : Probability P⦄ ⦃rn : Rng G⦄ where
  pub latched :
      {A : Type 0} (f : T → Cx → Polled A T Cx) (this : Terminator T P G) (cx : Cx)
      → this.triggered ≡ true
      → unless_triggered f this cx ≡ (ready (err terminated), this, cx)
  unfolding unless_triggered try_trigger
  latched f this cx h = ground arith

  latched_read :
      {B : Type 0} ⦃r : AsyncRead Cx B T⦄ (this : Terminator T P G) (cx : Cx) (buf : B)
      → this.triggered ≡ true
      → poll_read this cx buf ≡ (ready (err terminated), this, buf, cx)
  unfolding poll_read try_trigger
  latched_read this cx buf h = ground arith

  -- Of a terminator whose latch is set, a write, a vectored write, a flush, a shutdown and a read
  -- return the termination error and change neither the terminator nor the inner object, the caller's
  -- buffer or the context. Filling and consuming the inner buffer are not among them: they are still
  -- passed to the inner reader as they are.
  pub terminated_for_good :
      {B : Type 0} ⦃w : AsyncWrite Cx T⦄ ⦃r : AsyncRead Cx B T⦄ ⦃br : AsyncBufRead Cx T⦄
      (this : Terminator T P G) (cx : Cx) (buf : List ℕ) (bufs : List (List ℕ)) (b : B) (amt : ℕ)
      → this.triggered ≡ true
      → (terminator_write.poll_write this cx buf ≡ (ready (err terminated), this, cx))
        × (terminator_write.poll_write_vectored this cx bufs ≡ (ready (err terminated), this, cx))
        × (terminator_write.poll_flush this cx ≡ (ready (err terminated), this, cx))
        × (terminator_write.poll_shutdown this cx ≡ (ready (err terminated), this, cx))
        × (terminator_read.poll_read this cx b ≡ (ready (err terminated), this, b, cx))
        × (terminator_buf_read.poll_fill_buf this cx
            ≡ forward (put_inner this) (br.poll_fill_buf this.inner cx))
        × ((terminator_buf_read {Cx = Cx}).consume this amt
            ≡ put_inner this (br.consume this.inner amt))
  terminated_for_good ⦃w⦄ this cx buf bufs b amt h = (
    latched (λ inner cx'. w.poll_write inner cx' buf) this cx h,
    latched (λ inner cx'. w.poll_write_vectored inner cx' bufs) this cx h,
    latched w.poll_flush this cx h,
    latched w.poll_shutdown this cx h,
    latched_read this cx b h,
    refl,
    refl,
  )

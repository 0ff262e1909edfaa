-- ===== src/Terminator.antt =====
-- tokio-netem/src/terminator.rs: `Terminator` and its implementations of the I/O traits.
mod Tests
pub mod Latched
pub mod Contract
pub mod Passes
use trixter.Prelude.{ℕ, Bool, true, false, List, if◌then◌else◌}
use trixter.Tokio.{
  ready, err, IoError, other, terminated_error, Polled, PolledRead, AsyncWrite, AsyncRead,
  AsyncBufRead, Rng,
}
use trixter.Io.{ResetLinger, forward, forward_read, inner_linger, inner_buf_read}
use trixter.Probability.{Probability, try_trigger}

pub record Terminator (T P G : Type 0) : Type 0 where
  pub inner : T
  pub prob : P
  pub rng : G
  pub triggered : Bool

-- `new`, `from_seed` and `from_rng` differ in where the generator comes from.
abbrev pub with_rng : {T P G : Type 0} → T → P → G → Terminator T P G
with_rng inner prob rng = record { inner = inner; prob = prob; rng = rng; triggered = false }

abbrev pub put_inner : {T P G : Type 0} → Terminator T P G → T → Terminator T P G
put_inner this inner = record this { inner = inner }

-- `io::Error::other(TERMINATED_ERROR)`
abbrev pub terminated : IoError
terminated = other terminated_error

instance abbrev pub terminator_linger :
    {T P G : Type 0} ⦃l : ResetLinger T⦄ → ResetLinger (Terminator T P G)
terminator_linger = inner_linger (λ this. this.inner) put_inner

instance abbrev pub terminator_buf_read :
    {Cx T P G : Type 0} ⦃r : AsyncBufRead Cx T⦄ → AsyncBufRead Cx (Terminator T P G)
terminator_buf_read = inner_buf_read (λ this. this.inner) put_inner

module _ {Cx T P G : Type 0} ⦃pr : Probability P⦄ ⦃rn : Rng G⦄ where
  -- Each operation begins with `try_trigger`; `f` is the call on the inner object.
  unfoldable pub unless_triggered :
      {A : Type 0}
      → (T → Cx → Polled A T Cx)
      → Terminator T P G
      → Cx
      → Polled A (Terminator T P G) Cx
  unless_triggered f this cx =
      let (hit, triggered, rng) = try_trigger this.triggered this.rng this.prob in
      let this' = record this { triggered = triggered; rng = rng } in
      if hit
      then (ready (err terminated), this', cx)
      else forward (put_inner this') (f this.inner cx)

  unfoldable pub poll_read :
      {B : Type 0} ⦃r : AsyncRead Cx B T⦄
      → Terminator T P G
      → Cx
      → B
      → PolledRead (Terminator T P G) B Cx
  poll_read ⦃r⦄ this cx buf =
      let (hit, triggered, rng) = try_trigger this.triggered this.rng this.prob in
      let this' = record this { triggered = triggered; rng = rng } in
      if hit
      then (ready (err terminated), this', buf, cx)
      else forward_read (put_inner this') (r.poll_read this.inner cx buf)

  instance abbrev pub terminator_read :
      {B : Type 0} ⦃r : AsyncRead Cx B T⦄ → AsyncRead Cx B (Terminator T P G)
  terminator_read = record { poll_read = poll_read }

  instance abbrev pub terminator_write : ⦃w : AsyncWrite Cx T⦄ → AsyncWrite Cx (Terminator T P G)
  terminator_write ⦃w⦄ = record {
    poll_write = λ this cx buf. unless_triggered (λ inner cx'. w.poll_write inner cx' buf) this cx;
    poll_flush = λ this cx. unless_triggered w.poll_flush this cx;
    poll_shutdown = λ this cx. unless_triggered w.poll_shutdown this cx;
    is_write_vectored = λ this. w.is_write_vectored this.inner;
    poll_write_vectored = λ this cx bufs.
        unless_triggered (λ inner cx'. w.poll_write_vectored inner cx' bufs) this cx;
  }

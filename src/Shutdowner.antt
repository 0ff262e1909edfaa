-- ===== src/Shutdowner.antt =====
-- tokio-netem/src/shutdowner.rs: `Shutdowner` and its implementations of the I/O traits.
mod Tests
pub mod Tripped
pub mod Contract
pub mod Passes
use trixter.Prelude.{ℕ, Bool, List, Option, none, some}
use trixter.Tokio.{
  Poll, pending, ready, Result, ok, err, panic, spin, IoError, other, Payload, shutdown_error,
  Polled, PolledRead, AsyncWrite, AsyncRead, AsyncBufRead, Receiver,
}
use trixter.Io.{ResetLinger, forward, forward_read, inner_linger}

pub record Shutdowner (T Rx : Type 0) : Type 0 where
  pub inner : T
  pub err_rx : Option Rx

abbrev pub new : {T Rx : Type 0} → T → Rx → Shutdowner T Rx
new inner err_rx = record { inner = inner; err_rx = some err_rx }

abbrev pub put_inner : {T Rx : Type 0} → Shutdowner T Rx → T → Shutdowner T Rx
put_inner this inner = record this { inner = inner }

-- `io::Error::other(SHUTDOWN_ERROR)`
abbrev pub shut_down : IoError
shut_down = other shutdown_error

instance abbrev pub shutdowner_linger :
    {T Rx : Type 0} ⦃l : ResetLinger T⦄ → ResetLinger (Shutdowner T Rx)
shutdowner_linger = inner_linger (λ this. this.inner) put_inner

-- What the receiver's answer makes of the wrapper.
abbrev received :
    {T Rx Cx : Type 0}
    → Shutdowner T Rx
    → Poll (Option Payload) × Rx × Cx
    → Polled (Unit {0}) (Shutdowner T Rx) Cx
received this (ready (some e), rx, cx) = (ready (err (other e)), record this { err_rx = none }, cx)
received this (ready none, rx, cx) = (ready (err shut_down), record this { err_rx = none }, cx)
received this (pending, rx, cx) = (pending, record this { err_rx = some rx }, cx)

-- The receiver inside the wrapper, if there is one left.
abbrev poll_receiver_of :
    {T Rx Cx : Type 0} ⦃rc : Receiver Cx Rx⦄
    → Option Rx
    → Shutdowner T Rx
    → Cx
    → Polled (Unit {0}) (Shutdowner T Rx) Cx
poll_receiver_of none this cx = (ready (err shut_down), this, cx)
poll_receiver_of ⦃rc⦄ (some rx) this cx = received this (rc.poll_receiver rx cx)

-- `_ = self.poll_error(cx)?`: an error returns from the caller, anything else goes on.
abbrev pub unless_error :
    {A T Cx : Type 0} → Polled (Unit {0}) T Cx → (T → Cx → Polled A T Cx) → Polled A T Cx
unless_error (pending, this, cx) k = k this cx
unless_error (ready (ok _), this, cx) k = k this cx
unless_error (ready (err e), this, cx) k = (ready (err e), this, cx)
unless_error (ready panic, this, cx) k = (ready panic, this, cx)
unless_error (ready spin, this, cx) k = (ready spin, this, cx)

abbrev pub unless_error_read :
    {T B Cx : Type 0}
    → Polled (Unit {0}) T Cx
    → B
    → (T → Cx → PolledRead T B Cx)
    → PolledRead T B Cx
unless_error_read (pending, this, cx) buf k = k this cx
unless_error_read (ready (ok _), this, cx) buf k = k this cx
unless_error_read (ready (err e), this, cx) buf k = (ready (err e), this, buf, cx)
unless_error_read (ready panic, this, cx) buf k = (ready panic, this, buf, cx)
unless_error_read (ready spin, this, cx) buf k = (ready spin, this, buf, cx)

module _ {Cx T Rx : Type 0} ⦃rc : Receiver Cx Rx⦄ where
  unfoldable pub poll_error : Shutdowner T Rx → Cx → Polled (Unit {0}) (Shutdowner T Rx) Cx
  poll_error this cx = poll_receiver_of this.err_rx this cx

  -- Each operation begins with `poll_error`; `f` is the call on the inner object.
  unfoldable pub unless_tripped :
      {A : Type 0} → (T → Cx → Polled A T Cx) → Shutdowner T Rx → Cx → Polled A (Shutdowner T Rx) Cx
  unless_tripped f this cx =
      unless_error (poll_error this cx) (λ this' cx'. forward (put_inner this') (f this'.inner cx'))

  unfoldable pub poll_read :
      {B : Type 0} ⦃r : AsyncRead Cx B T⦄
      → Shutdowner T Rx
      → Cx
      → B
      → PolledRead (Shutdowner T Rx) B Cx
  poll_read ⦃r⦄ this cx buf =
      unless_error_read (poll_error this cx) buf
        (λ this' cx'. forward_read (put_inner this') (r.poll_read this'.inner cx' buf))

  instance abbrev pub shutdowner_read :
      {B : Type 0} ⦃r : AsyncRead Cx B T⦄ → AsyncRead Cx B (Shutdowner T Rx)
  shutdowner_read = record { poll_read = poll_read }

  instance abbrev pub shutdowner_buf_read :
      ⦃r : AsyncBufRead Cx T⦄ → AsyncBufRead Cx (Shutdowner T Rx)
  shutdowner_buf_read ⦃r⦄ = record {
    poll_fill_buf = λ this cx. unless_tripped r.poll_fill_buf this cx;
    consume = λ this amt. put_inner this (r.consume this.inner amt);
  }

  instance abbrev pub shutdowner_write : ⦃w : AsyncWrite Cx T⦄ → AsyncWrite Cx (Shutdowner T Rx)
  shutdowner_write ⦃w⦄ = record {
    poll_write = λ this cx buf. unless_tripped (λ inner cx'. w.poll_write inner cx' buf) this cx;
    poll_flush = λ this cx. unless_tripped w.poll_flush this cx;
    poll_shutdown = λ this cx. unless_tripped w.poll_shutdown this cx;
    is_write_vectored = λ this. w.is_write_vectored this.inner;
    poll_write_vectored =
        λ this cx bufs. unless_tripped (λ inner cx'. w.poll_write_vectored inner cx' bufs) this cx;
  }

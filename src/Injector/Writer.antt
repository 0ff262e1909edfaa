-- ===== src/Injector/Writer.antt =====
-- tokio-netem/src/injector.rs: `WriteInjector` and its implementations of the I/O traits.
pub mod Queue
pub mod Runs
use trixter.Prelude.{ℕ, zero, suc, List, Option, none, some}
use trixter.Tokio.{
  Poll, pending, ready, spin, Polled, AsyncWrite, AsyncRead, AsyncBufRead, ReadBuf, Channel,
}
use trixter.Drain.{Drained, drained, returned, drain}
use trixter.Io.{ResetLinger, forward, inner_linger, inner_read, inner_buf_read}

pub record WriteInjector (T Rx : Type 0) : Type 0 where
  pub inner : T
  pub buffer : Option (List ℕ)
  pub inject_rx : Rx

abbrev pub new : {T Rx : Type 0} → T → Rx → WriteInjector T Rx
new inner inject_rx = record { inner = inner; buffer = none; inject_rx = inject_rx }

abbrev pub put_inner : {T Rx : Type 0} → WriteInjector T Rx → T → WriteInjector T Rx
put_inner this inner = record this { inner = inner }

instance abbrev pub write_injector_linger :
    {T Rx : Type 0} ⦃l : ResetLinger T⦄ → ResetLinger (WriteInjector T Rx)
write_injector_linger = inner_linger (λ this. this.inner) put_inner

instance abbrev pub write_injector_buf_read :
    {Cx T Rx : Type 0} ⦃r : AsyncBufRead Cx T⦄ → AsyncBufRead Cx (WriteInjector T Rx)
write_injector_buf_read = inner_buf_read (λ this. this.inner) put_inner

instance abbrev pub write_injector_read :
    {Cx B T Rx : Type 0} ⦃r : AsyncRead Cx B T⦄ → AsyncRead Cx B (WriteInjector T Rx)
write_injector_read = inner_read (λ this. this.inner) put_inner

-- One round of the loop of `poll_write`.
abbrev Round : Type 0 → Type 0 → Type 0 → Type 0
Round T Rx Cx = WriteInjector T Rx → Cx → List ℕ → Polled ℕ (WriteInjector T Rx) Cx

module _ {Cx T Rx : Type 0} ⦃w : AsyncWrite Cx T⦄ ⦃ch : Channel Cx Rx⦄ where
  -- The `match` on what the channel gave.
  received : Round T Rx Cx → Poll (Option (List ℕ)) → Round T Rx Cx
  received again (ready (some buffer)) this cx buf =
      again (record this { buffer = some buffer }) cx buf
  received again (ready none) this cx buf =
      forward (put_inner this) (w.poll_write this.inner cx buf)
  received again pending this cx buf = forward (put_inner this) (w.poll_write this.inner cx buf)

  receive : Round T Rx Cx → Round T Rx Cx
  unfolding received
  receive again this cx buf =
      let (message, inject_rx, cx') = ch.poll_recv this.inject_rx cx in
      received again message (record this { inject_rx = inject_rx }) cx' buf

  -- How the inner `while` ended.
  after_drain :
      Round T Rx Cx → Drained T Cx → WriteInjector T Rx → List ℕ → Polled ℕ (WriteInjector T Rx) Cx
  unfolding receive
  after_drain again (drained inner cx) this buf =
      receive again (record this { inner = inner; buffer = none }) cx buf
  after_drain again (returned r inner left cx) this buf =
      (r, record this { inner = inner; buffer = some left }, cx)

  -- A round, by the buffer that it finds.
  write_from : Round T Rx Cx → Option (List ℕ) → Round T Rx Cx
  unfolding after_drain
  write_from again (some buffer) this cx buf =
      after_drain again (drain this.inner cx buffer) this buf
  write_from again none this cx buf = receive again this cx buf

  inject_loop : ℕ → Round T Rx Cx
  unfolding write_from
  inject_loop zero this cx buf = (ready spin, this, cx)
  inject_loop (suc fuel) this cx buf = write_from (inject_loop fuel) this.buffer this cx buf

  -- Each round but the last receives a message, and tokio lets a task receive 128 before it yields.
  unfoldable pub poll_write : Round T Rx Cx
  unfolding inject_loop
  poll_write this cx buf = inject_loop 129 this cx buf

  instance abbrev pub write_injector_write : AsyncWrite Cx (WriteInjector T Rx)
  write_injector_write = record {
    poll_write = poll_write;
    poll_flush = λ this cx. forward (put_inner this) (w.poll_flush this.inner cx);
    poll_shutdown = λ this cx. forward (put_inner this) (w.poll_shutdown this.inner cx);
    is_write_vectored = λ this. w.is_write_vectored this.inner;
    poll_write_vectored =
        λ this cx bufs. forward (put_inner this) (w.poll_write_vectored this.inner cx bufs);
  }

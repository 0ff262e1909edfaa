-- ===== src/Delayer/Writer.antt =====
-- tokio-netem/src/delayer.rs: `DelayedWriter` and its implementations of the I/O traits.
pub mod Steps
pub mod Timing
pub mod Progress
pub mod Contract
pub mod Passes
use trixter.Prelude.{ℕ, zero, suc, Bool, true, false, List}
use trixter.Tokio.{
  Poll, pending, ready, Result, panic, spin, Polled, AsyncWrite, AsyncRead, AsyncBufRead, Timer,
}
use trixter.Io.{ResetLinger, forward, inner_linger, inner_read, inner_buf_read}
use trixter.Delayer.Knob.{Duration}
use trixter.Delayer.Delay.{
  Action, before_delay, after_delay, Delay, Armed, unreachable, armed, new_delay, maybe_delay, poll,
}

pub record DelayedWriter (T D Sleep : Type 0) : Type 0 where
  pub inner : T
  pub delay : Delay D Sleep

abbrev pub put_inner : {T D Sleep : Type 0} → DelayedWriter T D Sleep → T → DelayedWriter T D Sleep
put_inner this inner = record this { inner = inner }

instance abbrev pub delayed_writer_linger :
    {T D Sleep : Type 0} ⦃l : ResetLinger T⦄ → ResetLinger (DelayedWriter T D Sleep)
delayed_writer_linger = inner_linger (λ this. this.inner) put_inner

instance abbrev pub delayed_writer_buf_read :
    {Cx T D Sleep : Type 0} ⦃r : AsyncBufRead Cx T⦄ → AsyncBufRead Cx (DelayedWriter T D Sleep)
delayed_writer_buf_read = inner_buf_read (λ this. this.inner) put_inner

instance abbrev pub delayed_writer_read :
    {Cx B T D Sleep : Type 0} ⦃r : AsyncRead Cx B T⦄ → AsyncRead Cx B (DelayedWriter T D Sleep)
delayed_writer_read = inner_read (λ this. this.inner) put_inner

module _ {Cx Sleep T D : Type 0} ⦃tm : Timer Cx Sleep⦄ where
  unfoldable pub new_writer : T → D → Cx → DelayedWriter T D Sleep
  unfolding new_delay
  new_writer inner delay_duration cx = record { inner = inner; delay = new_delay delay_duration cx }

module _ {Cx Sleep T D : Type 0} ⦃tm : Timer Cx Sleep⦄ ⦃du : Duration D⦄ where
  module _ {A : Type 0} (f : T → Cx → Polled A T Cx) where
    call : DelayedWriter T D Sleep → Cx → Polled A (DelayedWriter T D Sleep) Cx
    call this cx = forward (put_inner this) (f this.inner cx)

    -- The `match` on an action; `again` is the next round of the loop.
    after_armed :
        (DelayedWriter T D Sleep → Cx → Polled A (DelayedWriter T D Sleep) Cx)
        → Armed D Sleep Cx
        → DelayedWriter T D Sleep
        → Cx
        → Polled A (DelayedWriter T D Sleep) Cx
    unfolding call
    after_armed again unreachable this cx = (ready panic, this, cx)
    after_armed again (armed false delay cx') this cx = call (record this { delay = delay }) cx'
    after_armed again (armed true delay cx') this cx = again (record this { delay = delay }) cx'

    on_action :
        (DelayedWriter T D Sleep → Cx → Polled A (DelayedWriter T D Sleep) Cx)
        → Poll Action × Delay D Sleep × Cx
        → DelayedWriter T D Sleep
        → Polled A (DelayedWriter T D Sleep) Cx
    unfolding after_armed
    on_action again (pending, delay, cx) this = (pending, record this { delay = delay }, cx)
    on_action again (ready before_delay, delay, cx) this =
        after_armed again (maybe_delay delay cx) (record this { delay = delay }) cx
    on_action again (ready after_delay, delay, cx) this = call (record this { delay = delay }) cx

    delay_loop : ℕ → DelayedWriter T D Sleep → Cx → Polled A (DelayedWriter T D Sleep) Cx
    unfolding on_action
    delay_loop zero this cx = (ready spin, this, cx)
    delay_loop (suc fuel) this cx = on_action (delay_loop fuel) (poll this.delay cx) this

    -- Two rounds are enough: the second finds the delay armed.
    unfoldable pub poll_with_write_delay :
        DelayedWriter T D Sleep → Cx → Polled A (DelayedWriter T D Sleep) Cx
    unfolding delay_loop
    poll_with_write_delay this cx = delay_loop 2 this cx

module _ {Cx Sleep T D : Type 0} ⦃tm : Timer Cx Sleep⦄ ⦃du : Duration D⦄ ⦃w : AsyncWrite Cx T⦄ where
  instance abbrev pub delayed_write : AsyncWrite Cx (DelayedWriter T D Sleep)
  delayed_write = record {
    poll_write =
        λ this cx buf. poll_with_write_delay (λ inner cx'. w.poll_write inner cx' buf) this cx;
    poll_flush = λ this cx. forward (put_inner this) (w.poll_flush this.inner cx);
    poll_shutdown = λ this cx. poll_with_write_delay w.poll_shutdown this cx;
    is_write_vectored = λ this. w.is_write_vectored this.inner;
    poll_write_vectored = λ this cx bufs.
        poll_with_write_delay (λ inner cx'. w.poll_write_vectored inner cx' bufs) this cx;
  }

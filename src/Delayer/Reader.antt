-- ===== src/Delayer/Reader.antt =====
-- tokio-netem/src/delayer.rs: `DelayedReader` and its implementations of the I/O traits.
pub mod Contract
pub mod Full
pub mod Hazards
pub mod Timing
use trixter.Prelude.{ℕ, zero, suc, min, Bool, true, false, List, ◌==◌, if◌then◌else◌, length, take}
use trixter.Tokio.{
  Poll, pending, ready, ok, err, panic, spin, Polled, PolledRead, ready_read, AsyncWrite, AsyncRead,
  AsyncBufRead, ReadBuf, Timer,
}
use trixter.Io.{ResetLinger, inner_linger, inner_write, inner_buf_read}
use trixter.Delayer.Knob.{Duration}
use trixter.Delayer.Delay.{
  Action, before_delay, after_delay, Delay, Armed, unreachable, armed, new_delay, maybe_delay, poll,
}

pub record DelayedReader (T D Sleep : Type 0) : Type 0 where
  pub inner : T
  pub delay : Delay D Sleep
  pub buf_empty : Bool

abbrev pub put_inner : {T D Sleep : Type 0} → DelayedReader T D Sleep → T → DelayedReader T D Sleep
put_inner this inner = record this { inner = inner }

instance abbrev pub delayed_reader_linger :
    {T D Sleep : Type 0} ⦃l : ResetLinger T⦄ → ResetLinger (DelayedReader T D Sleep)
delayed_reader_linger = inner_linger (λ this. this.inner) put_inner

instance abbrev pub delayed_reader_buf_read :
    {Cx T D Sleep : Type 0} ⦃r : AsyncBufRead Cx T⦄ → AsyncBufRead Cx (DelayedReader T D Sleep)
delayed_reader_buf_read = inner_buf_read (λ this. this.inner) put_inner

instance abbrev pub delayed_reader_write :
    {Cx T D Sleep : Type 0} ⦃w : AsyncWrite Cx T⦄ → AsyncWrite Cx (DelayedReader T D Sleep)
delayed_reader_write = inner_write (λ this. this.inner) put_inner

-- One round of the loop of `poll_read`.
abbrev pub Round : Type 0 → Type 0 → Type 0 → Type 0 → Type 0 → Type 0
Round T D Sleep B Cx = DelayedReader T D Sleep → B → Cx → PolledRead (DelayedReader T D Sleep) B Cx

module _ {Cx Sleep B T D : Type 0} ⦃tm : Timer Cx Sleep⦄ ⦃du : Duration D⦄ ⦃r : AsyncBufRead Cx T⦄
    ⦃rb : ReadBuf B⦄ where
  -- Both arms end so: as much of `rem` as fits is copied and consumed.
  deliver : List ℕ → DelayedReader T D Sleep → B → Cx → PolledRead (DelayedReader T D Sleep) B Cx
  deliver rem this buf cx =
      let amt = min (length rem) (rb.remaining buf) in
      (
        ready (ok tt),
        record this { inner = r.consume this.inner amt; buf_empty = length rem == amt },
        rb.put_slice buf (take amt rem),
        cx,
      )

  after_armed : Round T D Sleep B Cx → Armed D Sleep Cx → List ℕ → Round T D Sleep B Cx
  unfolding deliver
  after_armed again unreachable rem this buf cx = (ready panic, this, buf, cx)
  after_armed again (armed true delay cx') rem this buf cx =
      again (record this { delay = delay }) buf cx'
  after_armed again (armed false delay cx') rem this buf cx =
      deliver rem (record this { delay = delay }) buf cx'

  -- The arm `Action::BeforeDelay`.
  before : Round T D Sleep B Cx → Round T D Sleep B Cx
  unfolding after_armed
  before again this buf cx =
      let (filled, inner, cx') = r.poll_fill_buf this.inner cx in
      let this' = record this { inner = inner } in
      ready_read filled this' buf cx' (λ rem.
        if this.buf_empty
        then after_armed again (maybe_delay this.delay cx') rem this' buf cx'
        else deliver rem this' buf cx')

  -- The arm `Action::AfterDelay`: a pending inner buffer is `unreachable!`.
  after_filled :
      Polled (List ℕ) T Cx → DelayedReader T D Sleep → B → PolledRead (DelayedReader T D Sleep) B Cx
  after_filled (pending, inner, cx) this buf = (ready panic, record this { inner = inner }, buf, cx)
  after_filled (ready (ok rem), inner, cx) this buf =
      deliver rem (record this { inner = inner }) buf cx
  after_filled (ready (err e), inner, cx) this buf =
      (ready (err e), record this { inner = inner }, buf, cx)
  after_filled (ready panic, inner, cx) this buf =
      (ready panic, record this { inner = inner }, buf, cx)
  after_filled (ready spin, inner, cx) this buf =
      (ready spin, record this { inner = inner }, buf, cx)

  on_action :
      Round T D Sleep B Cx
      → Poll Action × Delay D Sleep × Cx
      → DelayedReader T D Sleep
      → B
      → PolledRead (DelayedReader T D Sleep) B Cx
  unfolding before after_filled
  on_action again (pending, delay, cx) this buf = (pending, record this { delay = delay }, buf, cx)
  on_action again (ready before_delay, delay, cx) this buf =
      before again (record this { delay = delay }) buf cx
  on_action again (ready after_delay, delay, cx) this buf =
      after_filled (r.poll_fill_buf this.inner cx) (record this { delay = delay }) buf

  read_loop : ℕ → Round T D Sleep B Cx
  unfolding on_action
  read_loop zero this buf cx = (ready spin, this, buf, cx)
  read_loop (suc fuel) this buf cx = on_action (read_loop fuel) (poll this.delay cx) this buf

  -- Two rounds are enough: the second finds the delay armed.
  unfoldable pub poll_read :
      DelayedReader T D Sleep → Cx → B → PolledRead (DelayedReader T D Sleep) B Cx
  unfolding read_loop
  poll_read this cx buf = read_loop 2 this buf cx

  instance abbrev pub delayed_read : AsyncRead Cx B (DelayedReader T D Sleep)
  delayed_read = record { poll_read = poll_read }

module _ {Cx Sleep T D : Type 0} ⦃tm : Timer Cx Sleep⦄ where
  unfoldable pub new_reader : T → D → Cx → DelayedReader T D Sleep
  new_reader inner delay_duration cx = record {
    inner = inner;
    delay = new_delay delay_duration cx;
    buf_empty = true;
  }

-- ===== src/Injector/Reader.antt =====
-- tokio-netem/src/injector.rs: `ReadInjector` and its implementations of the I/O traits.
pub mod Delivery
use trixter.Prelude.{ℕ, min, List, Option, none, some, if◌then◌else◌, length, is_empty, take, drop}
use trixter.Tokio.{
  Poll, pending, ready, ok, PolledRead, AsyncWrite, AsyncRead, AsyncBufRead, ReadBuf, Channel,
}
use trixter.Io.{ResetLinger, forward_read, inner_linger, inner_write, inner_buf_read}

pub record ReadInjector (T Rx : Type 0) : Type 0 where
  pub inner : T
  pub buffer : Option (List ℕ)
  pub inject_rx : Rx

abbrev pub new : {T Rx : Type 0} → T → Rx → ReadInjector T Rx
new inner inject_rx = record { inner = inner; buffer = none; inject_rx = inject_rx }

abbrev pub put_inner : {T Rx : Type 0} → ReadInjector T Rx → T → ReadInjector T Rx
put_inner this inner = record this { inner = inner }

instance abbrev pub read_injector_linger :
    {T Rx : Type 0} ⦃l : ResetLinger T⦄ → ResetLinger (ReadInjector T Rx)
read_injector_linger = inner_linger (λ this. this.inner) put_inner

instance abbrev pub read_injector_buf_read :
    {Cx T Rx : Type 0} ⦃r : AsyncBufRead Cx T⦄ → AsyncBufRead Cx (ReadInjector T Rx)
read_injector_buf_read = inner_buf_read (λ this. this.inner) put_inner

instance abbrev pub read_injector_write :
    {Cx T Rx : Type 0} ⦃w : AsyncWrite Cx T⦄ → AsyncWrite Cx (ReadInjector T Rx)
read_injector_write = inner_write (λ this. this.inner) put_inner

module _ {Cx T Rx B : Type 0} ⦃rb : ReadBuf B⦄ where
  -- The round of the loop that finds a buffer: it always returns.
  unfoldable pub hand_out :
      List ℕ → ReadInjector T Rx → Cx → B → PolledRead (ReadInjector T Rx) B Cx
  hand_out buffer this cx buf =
      let n = min (rb.remaining buf) (length buffer) in
      let chunk = take n buffer in
      let rest = drop n buffer in
      (
        ready (ok tt),
        record this { buffer = if is_empty rest then none else some rest },
        rb.put_slice buf chunk,
        cx,
      )

  module _ ⦃r : AsyncRead Cx B T⦄ where
    unfoldable pub read_received :
        Poll (Option (List ℕ)) → ReadInjector T Rx → Cx → B → PolledRead (ReadInjector T Rx) B Cx
    unfolding hand_out
    read_received (ready (some buffer)) this cx buf =
        hand_out buffer (record this { buffer = some buffer }) cx buf
    read_received (ready none) this cx buf =
        forward_read (put_inner this) (r.poll_read this.inner cx buf)
    read_received pending this cx buf =
        forward_read (put_inner this) (r.poll_read this.inner cx buf)

    module _ ⦃ch : Channel Cx Rx⦄ where
      -- The first round, by the buffer that it finds.
      unfoldable pub read_from :
          Option (List ℕ) → ReadInjector T Rx → Cx → B → PolledRead (ReadInjector T Rx) B Cx
      unfolding read_received
      read_from (some buffer) this cx buf = hand_out buffer this cx buf
      read_from none this cx buf =
          let (message, inject_rx, cx') = ch.poll_recv this.inject_rx cx in
          read_received message (record this { inject_rx = inject_rx }) cx' buf

      unfoldable pub poll_read : ReadInjector T Rx → Cx → B → PolledRead (ReadInjector T Rx) B Cx
      unfolding read_from
      poll_read this cx buf = read_from this.buffer this cx buf

      instance abbrev pub read_injector_read : AsyncRead Cx B (ReadInjector T Rx)
      read_injector_read = record { poll_read = poll_read }

-- ===== src/Throttler/Writer.antt =====
-- tokio-netem/src/throttler.rs: `ThrottledWriter` and its implementations of the I/O traits.
pub mod Trim
pub mod Contract
pub mod Budget
pub mod Limit
pub mod Changes
pub mod Passes
use trixter.Prelude.{ℕ, ◌+◌, ◌-◌, min, List, [], ◌∷◌, ◌==◌, if◌then◌else◌, length, take}
use trixter.Tokio.{
  Poll, pending, ready, Result, ok, err, panic, spin, Polled, ready_ok, AsyncWrite, AsyncRead,
  AsyncBufRead, Timer,
}
use trixter.Io.{ResetLinger, forward, inner_linger, inner_read, inner_buf_read}
use trixter.Throttler.Knob.{Rate}
use trixter.Throttler.Bucket.{LeakyBucket, new_bucket, poll_acquire, consume_tokens}

pub record ThrottledWriter (T R Sleep : Type 0) : Type 0 where
  pub inner : T
  pub lb : LeakyBucket R Sleep

abbrev pub put_inner :
    {T R Sleep : Type 0} → ThrottledWriter T R Sleep → T → ThrottledWriter T R Sleep
put_inner this inner = record this { inner = inner }

instance abbrev pub throttled_writer_linger :
    {T R Sleep : Type 0} ⦃l : ResetLinger T⦄ → ResetLinger (ThrottledWriter T R Sleep)
throttled_writer_linger = inner_linger (λ this. this.inner) put_inner

instance abbrev pub throttled_writer_buf_read :
    {Cx T R Sleep : Type 0} ⦃r : AsyncBufRead Cx T⦄ → AsyncBufRead Cx (ThrottledWriter T R Sleep)
throttled_writer_buf_read = inner_buf_read (λ this. this.inner) put_inner

instance abbrev pub throttled_writer_read :
    {Cx B T R Sleep : Type 0} ⦃r : AsyncRead Cx B T⦄ → AsyncRead Cx B (ThrottledWriter T R Sleep)
throttled_writer_read = inner_read (λ this. this.inner) put_inner

-- `bufs.iter().map(|b| b.len()).sum()`
pub total_len : List (List ℕ) → ℕ
total_len [] = 0
total_len (s ∷ bufs) = length s + total_len bufs

-- The loop that builds `slices` from `bufs`, with the grant that remains.
pub trim_slices : ℕ → List (List ℕ) → List (List ℕ)
trim_slices remaining [] = []
trim_slices remaining (s ∷ bufs) =
    let n = min (length s) remaining in
    let rest = trim_slices (remaining - n) bufs in if remaining == 0 then [] else take n s ∷ rest

module _ {Cx Sleep T R : Type 0} ⦃tm : Timer Cx Sleep⦄ ⦃w : AsyncWrite Cx T⦄ ⦃ra : Rate R⦄ where
  unfoldable pub new_writer : T → R → Cx → ThrottledWriter T R Sleep × Cx
  new_writer inner rate cx =
      let (lb, cx') = new_bucket rate cx in (record { inner = inner; lb = lb }, cx')

  -- The `match` on the inner write: only what was written is deducted.
  pub deduct : Polled ℕ T Cx → ThrottledWriter T R Sleep → Polled ℕ (ThrottledWriter T R Sleep) Cx
  deduct (ready (ok n), inner, cx) this =
      (ready (ok n), record this { inner = inner; lb = consume_tokens this.lb n }, cx)
  deduct (pending, inner, cx) this = (pending, record this { inner = inner }, cx)
  deduct (ready (err e), inner, cx) this = (ready (err e), record this { inner = inner }, cx)
  deduct (ready panic, inner, cx) this = (ready panic, record this { inner = inner }, cx)
  deduct (ready spin, inner, cx) this = (ready spin, record this { inner = inner }, cx)

  -- `poll_write` with tokens granted.
  pub write_granted :
      ℕ → ThrottledWriter T R Sleep → Cx → List ℕ → Polled ℕ (ThrottledWriter T R Sleep) Cx
  write_granted granted this cx buf =
      let grant = min granted (length buf) in
      if grant == 0
      then (ready (ok 0), this, cx)
      else deduct (w.poll_write this.inner cx (take grant buf)) this

  unfoldable pub poll_write :
      ThrottledWriter T R Sleep → Cx → List ℕ → Polled ℕ (ThrottledWriter T R Sleep) Cx
  poll_write this cx buf =
      if ra.is_unlimited this.lb.rate
      then forward (put_inner this) (w.poll_write this.inner cx buf)
      else (let (r, lb, cx') = poll_acquire this.lb cx (length buf) in
          let this' = record this { lb = lb } in
          ready_ok r this' cx' (λ grant. write_granted grant this' cx' buf))

  pub write_vectored_granted :
      ℕ → ThrottledWriter T R Sleep → Cx → List (List ℕ) → Polled ℕ (ThrottledWriter T R Sleep) Cx
  write_vectored_granted grant this cx bufs =
      if grant == 0
      then (ready (ok 0), this, cx)
      else deduct (w.poll_write_vectored this.inner cx (trim_slices grant bufs)) this

  unfoldable pub poll_write_vectored :
      ThrottledWriter T R Sleep → Cx → List (List ℕ) → Polled ℕ (ThrottledWriter T R Sleep) Cx
  poll_write_vectored this cx bufs =
      if ra.is_unlimited this.lb.rate
      then forward (put_inner this) (w.poll_write_vectored this.inner cx bufs)
      else (let (r, lb, cx') = poll_acquire this.lb cx (total_len bufs) in
          let this' = record this { lb = lb } in
          ready_ok r this' cx' (λ grant. write_vectored_granted grant this' cx' bufs))

  unfoldable pub poll_flush :
      ThrottledWriter T R Sleep → Cx → Polled (Unit {0}) (ThrottledWriter T R Sleep) Cx
  poll_flush this cx = forward (put_inner this) (w.poll_flush this.inner cx)

  unfoldable pub poll_shutdown :
      ThrottledWriter T R Sleep → Cx → Polled (Unit {0}) (ThrottledWriter T R Sleep) Cx
  poll_shutdown this cx = forward (put_inner this) (w.poll_shutdown this.inner cx)

  instance unfoldable pub throttled_write : AsyncWrite Cx (ThrottledWriter T R Sleep)
  throttled_write = record {
    poll_write = poll_write;
    poll_flush = poll_flush;
    poll_shutdown = poll_shutdown;
    is_write_vectored = λ this. w.is_write_vectored this.inner;
    poll_write_vectored = poll_write_vectored;
  }

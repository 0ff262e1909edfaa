-- ===== src/Throttler/Reader.antt =====
-- tokio-netem/src/throttler.rs: `ThrottledReader` and its implementations of the I/O traits.
pub mod Delivery
pub mod Limit
use trixter.Prelude.{ℕ, min, List, ◌==◌, if◌then◌else◌, length, take}
use trixter.Tokio.{
  ready, ok, PolledRead, ready_read, AsyncWrite, AsyncRead, AsyncBufRead, ReadBuf, Timer,
}
use trixter.Io.{ResetLinger, forward_read, inner_linger, inner_write, inner_buf_read}
use trixter.Throttler.Knob.{Rate}
use trixter.Throttler.Bucket.{LeakyBucket, new_bucket, poll_acquire, consume_tokens}

pub record ThrottledReader (T R Sleep : Type 0) : Type 0 where
  pub inner : T
  pub lb : LeakyBucket R Sleep

abbrev pub put_inner :
    {T R Sleep : Type 0} → ThrottledReader T R Sleep → T → ThrottledReader T R Sleep
put_inner this inner = record this { inner = inner }

instance abbrev pub throttled_reader_linger :
    {T R Sleep : Type 0} ⦃l : ResetLinger T⦄ → ResetLinger (ThrottledReader T R Sleep)
throttled_reader_linger = inner_linger (λ this. this.inner) put_inner

instance abbrev pub throttled_reader_buf_read :
    {Cx T R Sleep : Type 0} ⦃r : AsyncBufRead Cx T⦄ → AsyncBufRead Cx (ThrottledReader T R Sleep)
throttled_reader_buf_read = inner_buf_read (λ this. this.inner) put_inner

instance abbrev pub throttled_reader_write :
    {Cx T R Sleep : Type 0} ⦃w : AsyncWrite Cx T⦄ → AsyncWrite Cx (ThrottledReader T R Sleep)
throttled_reader_write = inner_write (λ this. this.inner) put_inner

module _ {Cx Sleep T R : Type 0} ⦃tm : Timer Cx Sleep⦄ ⦃ra : Rate R⦄ where
  unfoldable pub new_reader : T → R → Cx → ThrottledReader T R Sleep × Cx
  new_reader inner rate cx =
      let (lb, cx') = new_bucket rate cx in (record { inner = inner; lb = lb }, cx')

module _ {Cx Sleep T R B : Type 0} ⦃tm : Timer Cx Sleep⦄ ⦃ra : Rate R⦄ ⦃br : AsyncBufRead Cx T⦄
    ⦃rb : ReadBuf B⦄ where
  -- Steps 3 on of `poll_read`, with the filled bytes and the granted tokens.
  pub read_granted :
      ℕ → List ℕ → ThrottledReader T R Sleep → B → Cx → PolledRead (ThrottledReader T R Sleep) B Cx
  read_granted granted rem this buf cx =
      let grant = min granted (rb.remaining buf) in
      if grant == 0 then (ready (ok tt), this, buf, cx) else (
        ready (ok tt),
        record this { inner = br.consume this.inner grant; lb = consume_tokens this.lb grant },
        rb.put_slice buf (take grant rem),
        cx,
      )

  -- Step 2: the tokens are asked for.
  pub read_filled :
      List ℕ → ThrottledReader T R Sleep → B → Cx → PolledRead (ThrottledReader T R Sleep) B Cx
  read_filled rem this buf cx =
      let (r, lb, cx') = poll_acquire this.lb cx (length rem) in
      let this' = record this { lb = lb } in
      ready_read r this' buf cx' (λ granted. read_granted granted rem this' buf cx')

  pub poll_read :
      ⦃rd : AsyncRead Cx B T⦄
      → ThrottledReader T R Sleep
      → Cx
      → B
      → PolledRead (ThrottledReader T R Sleep) B Cx
  poll_read ⦃rd⦄ this cx buf =
      if ra.is_unlimited this.lb.rate
      then forward_read (put_inner this) (rd.poll_read this.inner cx buf)
      else (let (r, inner, cx') = br.poll_fill_buf this.inner cx in
          let this' = record this { inner = inner } in
          ready_read r this' buf cx' (λ rem. read_filled rem this' buf cx'))

  instance abbrev pub throttled_read :
      ⦃rd : AsyncRead Cx B T⦄ → AsyncRead Cx B (ThrottledReader T R Sleep)
  throttled_read = record { poll_read = poll_read }

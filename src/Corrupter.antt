-- ===== src/Corrupter.antt =====
-- tokio-netem/src/corrupter.rs: `Corrupter` and its implementations of the I/O traits.
mod Tests
pub mod Queue
pub mod Reads
pub mod Passes
pub mod Hazards
use trixter.Prelude.{
  ℕ, zero, suc, Bool, false, not, ltb, ◌==◌, List, Option, none, some, if◌then◌else◌, length,
  is_empty, drop,
}
use trixter.Tokio.{
  Poll, pending, ready, Result, ok, err, panic, spin, write_zero, Polled, PolledRead, AsyncWrite,
  AsyncRead, AsyncBufRead, ReadBuf, Rng,
}
use trixter.Drain.{Drained, drained, returned, drain}
use trixter.Io.{ResetLinger, forward, forward_read, inner_linger, inner_buf_read}
use trixter.Probability.{Probability}

pub record Corrupter (T P G : Type 0) : Type 0 where
  pub inner : T
  pub prob : P
  pub rng : G
  pub write_buffer : Option (List ℕ)

-- `new`, `from_seed` and `from_rng` differ in where the generator comes from.
abbrev pub with_rng : {T P G : Type 0} → T → P → G → Corrupter T P G
with_rng inner prob rng = record { inner = inner; prob = prob; rng = rng; write_buffer = none }

abbrev pub put_inner : {T P G : Type 0} → Corrupter T P G → T → Corrupter T P G
put_inner this inner = record this { inner = inner }

instance abbrev pub corrupter_linger :
    {T P G : Type 0} ⦃l : ResetLinger T⦄ → ResetLinger (Corrupter T P G)
corrupter_linger = inner_linger (λ this. this.inner) put_inner

instance abbrev pub corrupter_buf_read :
    {Cx T P G : Type 0} ⦃r : AsyncBufRead Cx T⦄ → AsyncBufRead Cx (Corrupter T P G)
corrupter_buf_read = inner_buf_read (λ this. this.inner) put_inner

module _ {P G : Type 0} ⦃pr : Probability P⦄ ⦃rn : Rng G⦄ where
  -- The draw is made only if the threshold is not 0.
  unfoldable pub should_corrupt : G → P → Bool × G
  should_corrupt rng prob =
      let threshold = pr.threshold prob in
      let (draw, rng') = rn.next_u64 rng in
      if not (threshold == 0) then (ltb draw threshold, rng') else (false, rng)

module _ {G : Type 0} ⦃rn : Rng G⦄ where
  abbrev pub random_data_size : G → ℕ → List ℕ × G
  random_data_size rng len = rn.fill_bytes rng len

  unfoldable pub random_data : G → List ℕ × G
  random_data rng = let (size, rng') = rn.random_range rng 1 16384 in random_data_size rng' size

module _ {Cx T P G : Type 0} ⦃w : AsyncWrite Cx T⦄ where
  write_drained : Drained T Cx → Corrupter T P G → List ℕ → Polled ℕ (Corrupter T P G) Cx
  write_drained (drained inner cx) this buf =
      forward (put_inner (record this { write_buffer = none })) (w.poll_write inner cx buf)
  write_drained (returned r inner left cx) this buf =
      (r, record this { inner = inner; write_buffer = some left }, cx)

  -- The round of the loop that finds a write buffer.
  unfoldable pub write_queued :
      List ℕ → Corrupter T P G → Cx → List ℕ → Polled ℕ (Corrupter T P G) Cx
  unfolding write_drained
  write_queued write_buffer this cx buf = write_drained (drain this.inner cx write_buffer) this buf

module _ {Cx T P G : Type 0} ⦃pr : Probability P⦄ ⦃rn : Rng G⦄ where
  module _ ⦃w : AsyncWrite Cx T⦄ where
    -- The first round of the loop, by the write buffer that it finds.
    unfoldable pub write_from :
        Option (List ℕ) → Corrupter T P G → Cx → List ℕ → Polled ℕ (Corrupter T P G) Cx
    unfolding write_queued
    write_from (some write_buffer) this cx buf = write_queued write_buffer this cx buf
    write_from none this cx buf =
        let (corrupt, rng) = should_corrupt this.rng this.prob in
        let (noise, rng') = random_data rng in
        if corrupt
        then write_queued noise (record this { rng = rng'; write_buffer = some noise }) cx buf
        else forward (put_inner (record this { rng = rng })) (w.poll_write this.inner cx buf)

    unfoldable pub poll_write : Corrupter T P G → Cx → List ℕ → Polled ℕ (Corrupter T P G) Cx
    unfolding write_from
    poll_write this cx buf = write_from this.write_buffer this cx buf

    instance abbrev pub corrupter_write : AsyncWrite Cx (Corrupter T P G)
    corrupter_write = record {
      poll_write = poll_write;
      poll_flush = λ this cx. forward (put_inner this) (w.poll_flush this.inner cx);
      poll_shutdown = λ this cx. forward (put_inner this) (w.poll_shutdown this.inner cx);
      is_write_vectored = λ this. w.is_write_vectored this.inner;
      poll_write_vectored =
          λ this cx bufs. forward (put_inner this) (w.poll_write_vectored this.inner cx bufs);
    }

  unfoldable pub poll_read :
      {B : Type 0} ⦃rb : ReadBuf B⦄ ⦃r : AsyncRead Cx B T⦄
      → Corrupter T P G
      → Cx
      → B
      → PolledRead (Corrupter T P G) B Cx
  poll_read ⦃rb⦄ ⦃r⦄ this cx buf =
      let (corrupt, rng) = should_corrupt this.rng this.prob in
      let len = rb.remaining buf in
      let (noise, rng') = random_data_size rng len in
      if corrupt
      then (if ltb 0 len
          then (ready (ok tt), record this { rng = rng' }, rb.put_slice buf noise, cx)
          else (ready (ok tt), record this { rng = rng }, buf, cx))
      else forward_read (put_inner (record this { rng = rng })) (r.poll_read this.inner cx buf)

  instance abbrev pub corrupter_read :
      {B : Type 0} ⦃rb : ReadBuf B⦄ ⦃r : AsyncRead Cx B T⦄ → AsyncRead Cx B (Corrupter T P G)
  corrupter_read = record { poll_read = poll_read }

-- ===== src/RateCounting.antt =====
-- tokio-netem/src/utils/rate_counting_reader.rs: `RateCountingReader` and its implementations of the
-- I/O traits.
mod Tests
pub mod Totals
use trixter.Prelude.{
  ℕ, ◌+◌, ◌-◌, ◌^◌, min, ltb, Bool, List, Option, none, some, if◌then◌else◌, length,
}
use trixter.Tokio.{
  Poll, pending, ready, Result, ok, err, panic, spin, PolledRead, AsyncWrite, AsyncRead, ReadBuf,
  Timer, Average,
}
use trixter.Io.{inner_write}

pub record RateCountingReader (T : Type 0) : Type 0 where
  pub inner : T
  pub total_bytes : ℕ
  pub start : Option ℕ

abbrev pub new : {T : Type 0} → T → RateCountingReader T
new inner = record { inner = inner; total_bytes = 0; start = none }

unfoldable pub reset : {T : Type 0} → RateCountingReader T → RateCountingReader T
reset this = record this { total_bytes = 0; start = none }

abbrev pub total : {T : Type 0} → RateCountingReader T → ℕ
total this = this.total_bytes

abbrev pub start_instant : {T : Type 0} → RateCountingReader T → Option ℕ
start_instant this = this.start

abbrev pub into_inner : {T : Type 0} → RateCountingReader T → T
into_inner this = this.inner

module _ {Cx Sleep F : Type 0} (tm : Timer Cx Sleep) ⦃av : Average F⦄ where
  -- `start.elapsed()` is 0 if the clock stands before the start.
  rate_since : Option ℕ → ℕ → Cx → Option F × Cx
  rate_since none total_bytes cx = (none, cx)
  rate_since (some start) total_bytes cx =
      let (now, cx') = tm.now cx in
      let elapsed = av.max_f64 (av.as_secs_f64 (now - start)) av.micro in
      (some (av.div_f64 (av.from_u64 total_bytes) elapsed), cx')

  -- Bytes a second since the first read with bytes.
  unfoldable pub rate_bps : {T : Type 0} → RateCountingReader T → Cx → Option F × Cx
  unfolding rate_since
  rate_bps this cx = rate_since this.start this.total_bytes cx

abbrev pub put_inner : {T : Type 0} → RateCountingReader T → T → RateCountingReader T
put_inner this inner = record this { inner = inner }

abbrev pub u64_saturating_add : ℕ → ℕ → ℕ
u64_saturating_add a b = min (a + b) (2 ^ 64 - 1)

instance abbrev pub rate_counting_write :
    {Cx T : Type 0} ⦃w : AsyncWrite Cx T⦄ → AsyncWrite Cx (RateCountingReader T)
rate_counting_write = inner_write (λ this. this.inner) put_inner

-- The first read with bytes starts the clock.
started : {Cx Sleep : Type 0} → Timer Cx Sleep → Option ℕ → Cx → Option ℕ × Cx
started tm (some at) cx = (some at, cx)
started tm none cx = let (now, cx') = tm.now cx in (some now, cx')

module _ {Cx Sleep T B : Type 0} (tm : Timer Cx Sleep) ⦃rb : ReadBuf B⦄ where
  -- The arm of the `match` on a read that succeeded, by the bytes that it added.
  count : ℕ → RateCountingReader T → B → Cx → PolledRead (RateCountingReader T) B Cx
  unfolding started
  count diff this buf cx =
      let (start, cx') = started tm this.start cx in
      if ltb 0 diff
      then (
        ready (ok tt),
        record this { total_bytes = u64_saturating_add this.total_bytes diff; start = start },
        buf,
        cx',
      )
      else (ready (ok tt), this, buf, cx)

  on_read : ℕ → PolledRead T B Cx → RateCountingReader T → PolledRead (RateCountingReader T) B Cx
  unfolding count
  on_read filled (ready (ok _), inner, buf, cx) this =
      count (length (rb.filled buf) - filled) (record this { inner = inner }) buf cx
  on_read filled (pending, inner, buf, cx) this = (pending, record this { inner = inner }, buf, cx)
  on_read filled (ready (err e), inner, buf, cx) this =
      (ready (err e), record this { inner = inner }, buf, cx)
  on_read filled (ready panic, inner, buf, cx) this =
      (ready panic, record this { inner = inner }, buf, cx)
  on_read filled (ready spin, inner, buf, cx) this =
      (ready spin, record this { inner = inner }, buf, cx)

  unfoldable pub poll_read :
      ⦃r : AsyncRead Cx B T⦄
      → RateCountingReader T
      → Cx
      → B
      → PolledRead (RateCountingReader T) B Cx
  unfolding on_read
  poll_read ⦃r⦄ this cx buf = on_read (length (rb.filled buf)) (r.poll_read this.inner cx buf) this

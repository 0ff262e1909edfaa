-- ===== src/RateCounting/Totals.antt =====
-- tokio-netem/src/utils/rate_counting_reader.rs: the counters over any run of calls.
use trixter.Prelude.{
  ℕ, ◌+◌, ◌-◌, ◌^◌, min, ltb, ◌≡◌, refl, sym, ◌∙◌, ◌⊎◌, inl, inr, Bool, true, false, Bool-cases,
  arith, Option, none, some, length,
}
use trixter.Tokio.{
  Poll, pending, ready, Result, ok, err, panic, spin, PolledRead, AsyncRead, ReadBuf, Timer,
  Average,
}
use trixter.RateCounting.{
  RateCountingReader, new, reset, started, count, on_read, poll_read, rate_since, rate_bps,
}

abbrev is_some : Option ℕ → Bool
is_some none = false
is_some (some at) = true

-- The bytes that a read added, if it succeeded.
abbrev pub added : {B Cx T : Type 0} → ReadBuf B → ℕ → PolledRead T B Cx → ℕ
added rb filled (ready (ok _), inner, buf, cx) = length (rb.filled buf) - filled
added rb filled _ = 0

-- The calls that change the counters, with the bytes read since the start or the last reset.
module _ (Cx : Type 0) {Sleep : Type 0} (B : Type 0) {T : Type 0} (tm : Timer Cx Sleep)
    ⦃rb : ReadBuf B⦄ ⦃r : AsyncRead Cx B T⦄ where
  pub data Calls (inner : T) : RateCountingReader T → ℕ → Type 0 where
    created : Calls inner (new inner) 0
    read :
        {t : RateCountingReader T} {sum : ℕ}
        → Calls inner t sum
        → (cx : Cx) (buf : B)
        → Calls inner
            (poll_read tm t cx buf).1
            (sum + added rb (length (rb.filled buf)) (r.poll_read t.inner cx buf))
    restarted : {t : RateCountingReader T} {sum : ℕ} → Calls inner t sum → Calls inner (reset t) 0

-- The total is the sum, up to the largest `u64`, and the clock has started if there is any.
pub record Counts {T : Type 0} (sum : ℕ) (this : RateCountingReader T) : Type 0 where
  pub total : this.total_bytes ≡ min sum (2 ^ 64 - 1)
  pub clock_on : is_some this.start ≡ ltb 0 sum

is_some-started :
    {Cx Sleep : Type 0} (tm : Timer Cx Sleep) (start : Option ℕ) (cx : Cx)
    → is_some (started tm start cx).0 ≡ true
unfolding started
is_some-started tm none cx = refl
is_some-started tm (some at) cx = refl

none_added :
    {T : Type 0} (sum : ℕ) (this : RateCountingReader T) (inner : T)
    → Counts sum this
    → Counts (sum + 0) (record this { inner = inner })
none_added sum this inner k = record {
  total = ground (arith, k.total);
  clock_on = k.clock_on ∙ ground arith;
}

module _ {Cx Sleep B T : Type 0} (tm : Timer Cx Sleep) ⦃rb : ReadBuf B⦄ where
  count-Counts :
      (diff sum : ℕ) (this : RateCountingReader T) (buf : B) (cx : Cx)
      → Counts sum this
      → Counts (sum + diff) (count tm diff this buf cx).1
  unfolding count
  count-Counts diff sum this buf cx k = elim (Bool-cases (ltb 0 diff)) [
    | inl some_read ↦ rw some_read record {
      total = ground (arith, k.total);
      clock_on = is_some-started tm this.start cx ∙ ground arith;
    }
    | inr none_read ↦
        rw none_read
          record { total = ground (arith, k.total); clock_on = k.clock_on ∙ ground arith }
  ]

  on_read-Counts :
      (filled : ℕ) (p : Poll (Result (Unit {0}))) (inner : T) (buf : B) (cx : Cx) (sum : ℕ)
      (this : RateCountingReader T)
      → Counts sum this
      → Counts
          (sum + added rb filled (p, inner, buf, cx))
          (on_read tm filled (p, inner, buf, cx) this).1
  unfolding on_read
  on_read-Counts filled (ready (ok u)) inner buf cx sum this k =
      count-Counts (length (rb.filled buf) - filled) sum (record this { inner = inner }) buf cx
        (record { total = k.total; clock_on = k.clock_on })
  on_read-Counts filled pending inner buf cx sum this k = none_added sum this inner k
  on_read-Counts filled (ready (err e)) inner buf cx sum this k = none_added sum this inner k
  on_read-Counts filled (ready panic) inner buf cx sum this k = none_added sum this inner k
  on_read-Counts filled (ready spin) inner buf cx sum this k = none_added sum this inner k

  module _ ⦃r : AsyncRead Cx B T⦄ where
    -- After any reads and resets of a counting reader: its total is the number of bytes that the
    -- successful reads since the last reset have added to their buffers, up to the largest `u64`,
    -- and its start is set exactly if that number is not 0.
    pub Calls-Counts :
        {inner : T} {t : RateCountingReader T} {sum : ℕ} → Calls Cx B tm inner t sum → Counts sum t
    unfolding poll_read reset
    Calls-Counts created = record { total = refl; clock_on = refl }
    Calls-Counts (read {t = t} {sum = sum} cs cx buf) =
        let (p, inner', buf', cx') = r.poll_read t.inner cx buf in
        on_read-Counts (length (rb.filled buf)) p inner' buf' cx' sum t (Calls-Counts cs)
    Calls-Counts (restarted cs) = record { total = refl; clock_on = refl }

-- What the reader shows as its rate: nothing before the first byte, and then the bytes counted
-- divided by the seconds from some first read on, of which it takes a microsecond at least.
abbrev pub Measures :
    {Cx Sleep F T : Type 0}
    → Timer Cx Sleep
    → Average F
    → ℕ
    → RateCountingReader T
    → Cx
    → Option F × Cx
    → Type 0
Measures tm av sum this cx shown =
    ((ltb 0 sum ≡ false) × (shown ≡ (none, cx)))
    ⊎ ((ltb 0 sum ≡ true)
        × ((at : ℕ) × (this.start ≡ some at)
            × (shown ≡ (
                let (now, cx') = tm.now cx in
                (
                  some (
                      av.div_f64 (av.from_u64 (min sum (2 ^ 64 - 1)))
                        (av.max_f64 (av.as_secs_f64 (now - at)) av.micro)),
                  cx',
                )))))

module _ {Cx Sleep F T : Type 0} (tm : Timer Cx Sleep) ⦃av : Average F⦄ where
  rate_since-Measures :
      (start : Option ℕ) (total_bytes sum : ℕ) (inner : T) (cx : Cx)
      → total_bytes ≡ min sum (2 ^ 64 - 1)
      → is_some start ≡ ltb 0 sum
      → Measures tm av sum
          (record { inner = inner; total_bytes = total_bytes; start = start })
          cx
          (rate_since tm start total_bytes cx)
  unfolding rate_since
  rate_since-Measures none total_bytes sum inner cx t h = inl (sym h, refl)
  rate_since-Measures (some at) total_bytes sum inner cx t h = inr (sym h, (at, refl, rw t refl))

  -- After any reads and resets `rate_bps` is nothing if no byte was read since the last reset, and
  -- else the bytes read since, up to the largest `u64`, by the seconds since the start.
  pub rate_bps-Measures :
      {B : Type 0} ⦃rb : ReadBuf B⦄ ⦃r : AsyncRead Cx B T⦄ {inner : T} {t : RateCountingReader T}
      {sum : ℕ} (cx : Cx)
      → Calls Cx B tm inner t sum
      → Measures tm av sum t cx (rate_bps tm t cx)
  unfolding rate_bps
  rate_bps-Measures {t = t} {sum = sum} cx calls =
      let k = Calls-Counts tm calls in
      rate_since-Measures t.start t.total_bytes sum t.inner cx k.total k.clock_on

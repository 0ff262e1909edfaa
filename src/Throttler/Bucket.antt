-- ===== src/Throttler/Bucket.antt =====
-- tokio-netem/src/throttler.rs: the leaky bucket. Instants and durations are nanoseconds.
pub mod Meter
pub mod Naps
pub mod Wait
pub mod Panics
use trixter.Prelude.{
  ℕ, zero, suc, ◌+◌, ◌-◌, ◌*◌, ◌/◌, ◌%◌, ◌^◌, min, max, Bool, true, false, ltb, ◌==◌, if◌then◌else◌,
}
use trixter.Tokio.{Poll, pending, ready, Result, ok, spin, Polled, Timer}
use trixter.Throttler.Knob.{Rate}

pub record LeakyBucket (R Sleep : Type 0) : Type 0 where
  pub rate : R
  pub budget : ℕ
  pub last_update : ℕ
  pub sleep : Sleep
  pub sleeping : Bool

abbrev pub nanos_per_sec : ℕ
nanos_per_sec = 1_000_000_000

abbrev pub nanos_per_milli : ℕ
nanos_per_milli = 1_000_000

-- `u128` arithmetic: a product wraps, `saturating_add` stops at the largest value.
abbrev pub u128_mul : ℕ → ℕ → ℕ
u128_mul a b = a * b % 2 ^ 128

abbrev pub u128_saturating_add : ℕ → ℕ → ℕ
u128_saturating_add a b = min (a + b) (2 ^ 128 - 1)

abbrev is_pending {ℓ} : {A : Type ℓ} → Poll A → Bool
is_pending pending = true
is_pending (ready _) = false

-- How long to sleep at a rate, in milliseconds.
abbrev pub wake_up_ms : ℕ → ℕ
wake_up_ms rate = min 100 (max (1024 * 1000 / rate) 1)

-- Rounds of the loop in `poll_acquire`: more than it ever takes.
abbrev pub loop_fuel : ℕ
loop_fuel = 11

module _ {Sleep R : Type 0} ⦃ra : Rate R⦄ where
  -- The tokens that the time since the last update is worth.
  abbrev pub added : LeakyBucket R Sleep → ℕ → ℕ
  added this now = u128_mul (now - this.last_update) (ra.rate this.rate) / nanos_per_sec

  -- `update_budget` once the clock is read.
  pub refill : LeakyBucket R Sleep → ℕ → LeakyBucket R Sleep
  refill this now =
      if ltb 0 (added this now)
      then record this {
        last_update = now;
        budget = min (u128_saturating_add this.budget (added this now)) (ra.rate this.rate);
      }
      else this

module _ {Sleep R : Type 0} where
  -- The method `consume`.
  pub consume_tokens : LeakyBucket R Sleep → ℕ → LeakyBucket R Sleep
  consume_tokens this used = record this { budget = this.budget - used }

module _ {Cx Sleep R : Type 0} ⦃tm : Timer Cx Sleep⦄ ⦃ra : Rate R⦄ where
  unfoldable pub new_bucket : R → Cx → LeakyBucket R Sleep × Cx
  new_bucket rate cx =
      let (now, cx') = tm.now cx in
      (
        record {
          rate = rate;
          budget = ra.rate rate;
          last_update = now;
          sleep = tm.sleep 0 cx';
          sleeping = false;
        },
        cx',
      )

  pub update_budget : LeakyBucket R Sleep → Cx → LeakyBucket R Sleep × Cx
  unfolding refill
  update_budget this cx = let (now, cx') = tm.now cx in (refill this now, cx')

  -- The sleep in the loop: it is set to end after the wake-up time, and polled.
  pub nap : LeakyBucket R Sleep → Cx → ℕ → Poll (Unit {0}) × LeakyBucket R Sleep × Cx
  nap this cx rate =
      let (now, cx₁) = tm.now cx in
      let asleep = tm.reset this.sleep (now + wake_up_ms rate * nanos_per_milli) in
      let (fired, sleep, cx₂) = tm.poll_sleep asleep cx₁ in
      (fired, record this { sleep = sleep; sleeping = true }, cx₂)

  -- The loop of `poll_acquire`.
  pub acquire_loop : ℕ → LeakyBucket R Sleep → Cx → ℕ → ℕ → Polled ℕ (LeakyBucket R Sleep) Cx
  acquire_loop zero this cx want rate = (ready spin, this, cx)
  acquire_loop (suc fuel) this cx want rate =
      let (this₁, cx₁) = update_budget this cx in
      let grant = min want this₁.budget in
      let (fired, this₂, cx₂) = nap this₁ cx₁ rate in
      let rest = acquire_loop fuel this₂ cx₂ want rate in
      if ltb 0 grant
      then (ready (ok grant), this₁, cx₁)
      else if is_pending fired
      then (pending, this₂, cx₂)
      else rest

  -- `poll_acquire` behind its wait for an earlier sleep.
  pub acquire_awake : ℕ → LeakyBucket R Sleep → Cx → ℕ → Polled ℕ (LeakyBucket R Sleep) Cx
  acquire_awake fuel this cx want =
      let rate = ra.rate this.rate in
      if want == 0
      then (ready (ok 0), this, cx)
      else if rate == 0
      then (ready (ok want), this, cx)
      else acquire_loop fuel this cx want rate

  pub acquire_after_sleep :
      ℕ → Poll (Unit {0}) → LeakyBucket R Sleep → Cx → ℕ → Polled ℕ (LeakyBucket R Sleep) Cx
  acquire_after_sleep fuel pending this cx want = (pending, this, cx)
  acquire_after_sleep fuel (ready _) this cx want =
      acquire_awake fuel (record this { sleeping = false }) cx want

  -- By whether the bucket is sleeping.
  pub acquire_from : Bool → ℕ → LeakyBucket R Sleep → Cx → ℕ → Polled ℕ (LeakyBucket R Sleep) Cx
  acquire_from true fuel this cx want =
      let (fired, sleep, cx') = tm.poll_sleep this.sleep cx in
      acquire_after_sleep fuel fired (record this { sleep = sleep }) cx' want
  acquire_from false fuel this cx want = acquire_awake fuel this cx want

  pub poll_acquire : LeakyBucket R Sleep → Cx → ℕ → Polled ℕ (LeakyBucket R Sleep) Cx
  poll_acquire this cx want = acquire_from this.sleeping loop_fuel this cx want

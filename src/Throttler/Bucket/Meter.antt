-- ===== src/Throttler/Bucket/Meter.antt =====
-- tokio-netem/src/throttler.rs: the bucket spends no more than its rate allows.
use trixter.Prelude.{
  ℕ, zero, suc, ◌+◌, ◌-◌, ◌*◌, ◌≤◌, ◌<◌, min, ◌≡◌, refl, ◌∙◌, inl, inr, Bool, true, false, arith,
  ltb, ◌==◌, Bool-cases,
}
use trixter.Tokio.{Poll, pending, ready, Result, ok, Polled, Timer}
use trixter.Throttler.Knob.{Rate}
use trixter.Throttler.Bucket.{
  LeakyBucket, nanos_per_sec, added, refill, update_budget, acquire_loop, acquire_awake,
  acquire_after_sleep, acquire_from, poll_acquire, consume_tokens, nap, is_pending, loop_fuel,
  new_bucket,
}

-- With `spent` tokens gone since the clock stood at `since` and `start` tokens were left: what is
-- spent and what is left is at most `start` and the time up to the last update at the rate.
pub record Metered {Sleep R : Type 0} ⦃ra : Rate R⦄ (start since spent : ℕ)
    (this : LeakyBucket R Sleep) : Type 0 where
  pub within :
      (spent + this.budget) * nanos_per_sec + ra.rate this.rate * since
      ≤ start * nanos_per_sec + ra.rate this.rate * this.last_update

split_product : (r a b : ℕ) → a ≤ b → r * b ≡ r * a + r * (b - a)
split_product r a b h = grind arith

module _ {Sleep R : Type 0} ⦃ra : Rate R⦄ (start since : ℕ) where
  added_bound :
      (this : LeakyBucket R Sleep) (now : ℕ)
      → added this now * nanos_per_sec ≤ ra.rate this.rate * (now - this.last_update)
  added_bound this now = omega arith

  pub refill-Metered :
      (spent : ℕ) (this : LeakyBucket R Sleep) (now : ℕ)
      → Metered start since spent this
      → Metered start since spent (refill this now)
  unfolding refill
  refill-Metered spent this now m =
      ground (arith, added_bound this now, split_product (ra.rate this.rate) this.last_update now)

  pub consume_tokens-Metered :
      (spent used : ℕ) (this : LeakyBucket R Sleep)
      → used ≤ this.budget
      → Metered start since spent this
      → Metered start since (spent + used) (consume_tokens this used)
  unfolding consume_tokens
  consume_tokens-Metered spent used this h m = omega arith

  -- The state of the sleep is no part of the account.
  Metered-sleep :
      (spent : ℕ) (this : LeakyBucket R Sleep) (sleep : Sleep) (sleeping : Bool)
      → Metered start since spent this
      → Metered start since spent (record this { sleep = sleep; sleeping = sleeping })
  Metered-sleep spent this sleep sleeping m = record { within = m.within }

-- A grant is no more than what was wanted, nor than what is left.
abbrev pub Granted : {Sleep R : Type 0} → Poll (Result ℕ) → ℕ → LeakyBucket R Sleep → Type 0
Granted (ready (ok grant)) want this = (grant ≤ want) × (grant ≤ this.budget)
Granted _ want this = Unit {0}

abbrev pub Accounted :
    {Sleep R Cx : Type 0} ⦃ra : Rate R⦄
    → ℕ
    → ℕ
    → ℕ
    → ℕ
    → LeakyBucket R Sleep
    → Polled ℕ (LeakyBucket R Sleep) Cx
    → Type 0
Accounted start since spent want old (r, this, cx) =
    Metered start since spent this × Granted r want this × (this.rate ≡ old.rate)

module _ {Cx Sleep R : Type 0} ⦃tm : Timer Cx Sleep⦄ ⦃ra : Rate R⦄
    (start since spent want : ℕ) where
  update_budget-Metered :
      (this : LeakyBucket R Sleep) (cx : Cx)
      → Metered start since spent this
      → Metered start since spent (update_budget this cx).0
        × ((update_budget this cx).0.rate ≡ this.rate)
  unfolding update_budget
  update_budget-Metered this cx m =
      (refill-Metered start since spent this (tm.now cx).0 m, unfold refill in ground arith)

  nap-Metered :
      (this : LeakyBucket R Sleep) (cx : Cx) (rate : ℕ)
      → Metered start since spent this
      → Metered start since spent (nap this cx rate).1
  unfolding nap
  nap-Metered this cx rate m = record { within = m.within }

  rate-nap :
      (this : LeakyBucket R Sleep) (cx : Cx) (rate : ℕ) → (nap this cx rate).1.rate ≡ this.rate
  unfolding nap
  rate-nap this cx rate = refl

  acquire_loop-Accounted :
      (fuel : ℕ) (this : LeakyBucket R Sleep) (cx : Cx) (rate : ℕ)
      → Metered start since spent this
      → Accounted start since spent want this (acquire_loop fuel this cx want rate)
  unfolding acquire_loop
  acquire_loop-Accounted zero this cx rate m = (m, tt, refl)
  acquire_loop-Accounted (suc fuel) this cx rate m =
      let (this₁, cx₁) = update_budget this cx in
      let (m₁, r₁) = update_budget-Metered this cx m in
      let (fired, this₂, cx₂) = nap this₁ cx₁ rate in
      let m₂ = nap-Metered this₁ cx₁ rate m₁ in
      let r₂ = rate-nap this₁ cx₁ rate in
      elim (Bool-cases (ltb 0 (min want this₁.budget))) [
        | inl some_left ↦ rw some_left (m₁, (omega arith, omega arith), r₁)
        | inr none_left ↦ rw none_left (elim (Bool-cases (is_pending fired)) [
          | inl waits ↦ rw waits (m₂, tt, r₂ ∙ r₁)
          | inr fires ↦ rw fires (
              let (m₃, g, r₃) = acquire_loop-Accounted fuel this₂ cx₂ rate m₂ in
              (m₃, g, r₃ ∙ (r₂ ∙ r₁)))
        ])
      ]

  acquire_awake-Accounted :
      (fuel : ℕ) (this : LeakyBucket R Sleep) (cx : Cx)
      → 0 < ra.rate this.rate
      → Metered start since spent this
      → Accounted start since spent want this (acquire_awake fuel this cx want)
  unfolding acquire_awake
  acquire_awake-Accounted fuel this cx pos m = elim (Bool-cases (want == 0)) [
    | inl z ↦ rw z (m, (omega arith, omega arith), refl)
    | inr nz ↦
        let limited : (ra.rate this.rate == 0) ≡ false = ground arith in
        rw (nz, limited) (acquire_loop-Accounted fuel this cx (ra.rate this.rate) m)
  ]

  acquire_after_sleep-Accounted :
      (fuel : ℕ) (fired : Poll (Unit {0})) (this : LeakyBucket R Sleep) (cx : Cx)
      → 0 < ra.rate this.rate
      → Metered start since spent this
      → Accounted start since spent want this (acquire_after_sleep fuel fired this cx want)
  unfolding acquire_after_sleep
  acquire_after_sleep-Accounted fuel pending this cx pos m = (m, tt, refl)
  acquire_after_sleep-Accounted fuel (ready _) this cx pos m =
      acquire_awake-Accounted fuel (record this { sleeping = false }) cx pos
        (Metered-sleep start since spent this this.sleep false m)

  acquire_from-Accounted :
      (sleeping : Bool) (fuel : ℕ) (this : LeakyBucket R Sleep) (cx : Cx)
      → 0 < ra.rate this.rate
      → Metered start since spent this
      → Accounted start since spent want this (acquire_from sleeping fuel this cx want)
  unfolding acquire_from
  acquire_from-Accounted true fuel this cx pos m =
      let (fired, sleep, cx') = tm.poll_sleep this.sleep cx in
      acquire_after_sleep-Accounted fuel fired (record this { sleep = sleep }) cx' pos
        (Metered-sleep start since spent this sleep this.sleeping m)
  acquire_from-Accounted false fuel this cx pos m = acquire_awake-Accounted fuel this cx pos m

  -- At a rate that is not 0 the poll keeps the account, its grant is no more than what is wanted and
  -- what is left, and the rate stays.
  pub poll_acquire-Accounted :
      (this : LeakyBucket R Sleep) (cx : Cx)
      → 0 < ra.rate this.rate
      → Metered start since spent this
      → Accounted start since spent want this (poll_acquire this cx want)
  unfolding poll_acquire
  poll_acquire-Accounted this cx pos m =
      acquire_from-Accounted this.sleeping loop_fuel this cx pos m

module _ {Cx R : Type 0} (Sleep : Type 0) ⦃tm : Timer Cx Sleep⦄ ⦃ra : Rate R⦄ where
  -- A new bucket starts with one second of tokens at the clock's reading.
  pub new_bucket-Metered :
      (spent : ℕ) (rate : R) (cx : Cx)
      → Metered {Sleep = Sleep} (spent + ra.rate rate) (tm.now cx).0 spent (new_bucket rate cx).0
  unfolding new_bucket
  new_bucket-Metered spent rate cx = record { within = omega arith }

  pub rate-new_bucket :
      (rate : R) (cx : Cx)
      → let this : LeakyBucket R Sleep = (new_bucket rate cx).0 in this.rate ≡ rate
  unfolding new_bucket
  rate-new_bucket rate cx = refl

pub rate-consume_tokens :
    {Sleep R : Type 0} (this : LeakyBucket R Sleep) (used : ℕ)
    → (consume_tokens this used).rate ≡ this.rate
unfolding consume_tokens
rate-consume_tokens this used = refl

pub budget-consume_tokens :
    {Sleep R : Type 0} (this : LeakyBucket R Sleep) (used : ℕ)
    → (consume_tokens this used).budget ≡ this.budget - used
unfolding consume_tokens
budget-consume_tokens this used = refl

-- Every bucket is metered from what it has now.
pub Metered-now :
    {Sleep R : Type 0} ⦃ra : Rate R⦄ (this : LeakyBucket R Sleep) → Metered this.budget 0 0 this
Metered-now this = record { within = omega arith }

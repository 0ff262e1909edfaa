-- ===== src/Throttler/Bucket/Wait.antt =====
-- tokio-netem/src/throttler.rs: a wait for tokens ends.
use native.Mathlib.Nat.{le_trans}
use trixter.Prelude.{
  ℕ, zero, suc, ◌+◌, ◌-◌, ◌*◌, ◌^◌, ◌≤◌, ◌<◌, min, ◌≡◌, refl, sym, ap, ◌∙◌, inl, inr, Bool, true,
  false, arith, ltb, ◌==◌, Bool-cases, ltb→lt, subst,
}
use trixter.Tokio.{Poll, pending, ready, ok, err, panic, spin, Polled, Timer, TimerLaws}
use trixter.Throttler.Knob.{usize_rate}
use trixter.Throttler.Bucket.{
  LeakyBucket, nanos_per_sec, nanos_per_milli, wake_up_ms, refill, update_budget, acquire_loop,
  acquire_awake, acquire_after_sleep, acquire_from, poll_acquire, nap, is_pending, loop_fuel,
}
use trixter.Throttler.Bucket.Naps.{mul_mono, long_enough, few_left, next_round, ten_naps}

abbrev pub Settled : {R Sleep Cx : Type 0} → ℕ → Polled ℕ (LeakyBucket R Sleep) Cx → Type 0
Settled want (pending, this, cx) = this.sleeping ≡ true
Settled want (ready (ok grant), this, cx) = (0 < grant) × (grant ≤ want)
Settled want (ready (err e), this, cx) = ⊥
Settled want (ready panic, this, cx) = ⊥
Settled want (ready spin, this, cx) = ⊥

module _ {Sleep : Type 0} where
  -- Where time is worth a token, the refill leaves one.
  refill_pays :
      (this : LeakyBucket ℕ Sleep) (now : ℕ)
      → 0 < this.rate
      → nanos_per_sec ≤ (now - this.last_update) * this.rate
      → (now - this.last_update) * this.rate < 2 ^ 128
      → 0 < (refill this now).budget
  unfolding refill
  refill_pays this now pos worth small = ground arith

  -- A refill that leaves no token has changed nothing.
  refill_idle :
      (this : LeakyBucket ℕ Sleep) (now : ℕ)
      → 0 < this.rate
      → (refill this now).budget ≡ 0
      → refill this now ≡ this
  unfolding refill
  refill_idle this now pos e = ground arith

module _ {Cx Sleep : Type 0} ⦃tm : Timer Cx Sleep⦄ {time : Cx → ℕ} {deadline : Sleep → ℕ}
    (laws : TimerLaws tm time deadline) where
  ready_of_fired : (fired : Poll (Unit {0})) → is_pending fired ≡ false → fired ≡ ready tt
  ready_of_fired pending h = cc
  ready_of_fired (ready tt) h = refl

  sleeping-nap :
      (this : LeakyBucket ℕ Sleep) (cx : Cx) (rate : ℕ) → (nap this cx rate).1.sleeping ≡ true
  unfolding nap
  sleeping-nap this cx rate = refl

  nap_keeps :
      (this : LeakyBucket ℕ Sleep) (cx : Cx) (rate : ℕ)
      → ((nap this cx rate).1.rate ≡ this.rate)
        × ((nap this cx rate).1.last_update ≡ this.last_update)
  unfolding nap
  nap_keeps this cx rate = (refl, refl)

  nap_fired :
      (this : LeakyBucket ℕ Sleep) (cx : Cx) (rate : ℕ)
      → is_pending (nap this cx rate).0 ≡ false
      → time cx + wake_up_ms rate * nanos_per_milli ≤ time (nap this cx rate).2
  unfolding nap
  nap_fired this cx rate h =
      let (now, cx₁) = tm.now cx in
      let asleep = tm.reset this.sleep (now + wake_up_ms rate * nanos_per_milli) in
      omega (
        arith,
        laws.now_later cx,
        laws.reset_deadline this.sleep (now + wake_up_ms rate * nanos_per_milli),
        laws.fires_late asleep cx₁ (ready_of_fired _ h),
      )

  module _ (want rate : ℕ) (wanted : 0 < want) (limited : 0 < rate)
      (fits : (cx : Cx) → time cx * rate < 2 ^ 128) where
    update_budget_pays :
        (this : LeakyBucket ℕ Sleep) (cx : Cx)
        → this.rate ≡ rate
        → this.last_update + 10 * (wake_up_ms rate * nanos_per_milli) ≤ time cx
        → 0 < (update_budget this cx).0.budget
    unfolding update_budget
    update_budget_pays this cx r long =
        let (now, cx₁) = tm.now cx in
        let wait = wake_up_ms rate * nanos_per_milli in
        let later : this.last_update + 10 * wait ≤ now = le_trans long (laws.now_later cx) in
        let elapsed : 10 * wait ≤ now - this.last_update =
          long_enough (10 * wait) now this.last_update later in
        let worth : nanos_per_sec ≤ (now - this.last_update) * rate =
          ten_naps rate (now - this.last_update) limited elapsed in
        let small : (now - this.last_update) * rate < 2 ^ 128 = omega (
          arith,
          mul_mono (now - this.last_update) now rate (omega arith),
          fits cx₁,
          ap (λ t. t * rate) (laws.now_reads cx),
        ) in
        refill_pays this now (rw r limited) (rw r worth) (rw r small)

    update_budget_idle :
        (this : LeakyBucket ℕ Sleep) (cx : Cx)
        → this.rate ≡ rate
        → (update_budget this cx).0.budget ≡ 0
        → (update_budget this cx).0 ≡ this
    unfolding update_budget
    update_budget_idle this cx r = refill_idle this (tm.now cx).0 (rw r limited)

    time-update_budget :
        (this : LeakyBucket ℕ Sleep) (cx : Cx) → time cx ≤ time (update_budget this cx).1
    unfolding update_budget
    time-update_budget this cx = omega (arith, laws.now_later cx, laws.now_reads cx)

    -- The rounds of the loop, `k` of which have slept.
    acquire_loop-Settled :
        (fuel k : ℕ) (this : LeakyBucket ℕ Sleep) (cx : Cx)
        → fuel + k ≡ 11
        → k ≤ 10
        → this.rate ≡ rate
        → this.last_update + k * (wake_up_ms rate * nanos_per_milli) ≤ time cx
        → Settled want (acquire_loop fuel this cx want rate)
    unfolding acquire_loop
    acquire_loop-Settled zero k this cx e few r waited = absurd (omega arith)
    acquire_loop-Settled (suc fuel) k this cx e few r waited =
        let wait = wake_up_ms rate * nanos_per_milli in
        let (this₁, cx₁) = update_budget this cx in
        let (fired, this₂, cx₂) = nap this₁ cx₁ rate in
        elim (Bool-cases (ltb 0 (min want this₁.budget))) [
          | inl some_left ↦ rw some_left (ltb→lt _ _ some_left, omega arith)
          | inr none_left ↦ rw none_left (elim (Bool-cases (is_pending fired)) [
            | inl waits ↦ rw waits (sleeping-nap this₁ cx₁ rate)
            | inr fires ↦
                let empty : this₁.budget ≡ 0 = ground arith in
                let same : this₁ ≡ this = update_budget_idle this cx r empty in
                rw fires (
                  acquire_loop-Settled fuel (suc k) this₂ cx₂ (omega arith)
                    (few_left k wait this.last_update (time cx) this₁.budget few waited
                      (update_budget_pays this cx r) empty)
                    ((nap_keeps this₁ cx₁ rate).0
                      ∙ ap (λ (b : LeakyBucket ℕ Sleep). b.rate) same
                      ∙ r)
                    (next_round k wait this.last_update (time cx) this₂.last_update (time cx₂)
                      waited
                      ((nap_keeps this₁ cx₁ rate).1
                        ∙ ap (λ (b : LeakyBucket ℕ Sleep). b.last_update) same)
                      (omega (arith, time-update_budget this cx, nap_fired this₁ cx₁ rate fires))))
          ])
        ]

    acquire_awake-Settled :
        (this : LeakyBucket ℕ Sleep) (cx : Cx)
        → this.rate ≡ rate
        → this.last_update ≤ time cx
        → Settled want (acquire_awake loop_fuel this cx want)
    unfolding acquire_awake
    acquire_awake-Settled this cx r old =
        let nz : (want == 0) ≡ false = ground arith in
        let limit : (this.rate == 0) ≡ false = ground arith in
        rw (nz, limit)
          (subst (λ k. Settled want (acquire_loop loop_fuel this cx want k)) (sym r)
            (acquire_loop-Settled loop_fuel 0 this cx refl (omega arith) r (omega arith)))

    acquire_after_sleep-Settled :
        (fired : Poll (Unit {0})) (this : LeakyBucket ℕ Sleep) (cx : Cx)
        → this.rate ≡ rate
        → this.last_update ≤ time cx
        → this.sleeping ≡ true
        → Settled want (acquire_after_sleep loop_fuel fired this cx want)
    unfolding acquire_after_sleep
    acquire_after_sleep-Settled pending this cx r old asleep = asleep
    acquire_after_sleep-Settled (ready _) this cx r old asleep =
        acquire_awake-Settled (record this { sleeping = false }) cx r old

    acquire_from-Settled :
        (sleeping : Bool) (this : LeakyBucket ℕ Sleep) (cx : Cx)
        → this.sleeping ≡ sleeping
        → this.rate ≡ rate
        → this.last_update ≤ time cx
        → Settled want (acquire_from sleeping loop_fuel this cx want)
    unfolding acquire_from
    acquire_from-Settled true this cx s r old =
        let (fired, sleep, cx') = tm.poll_sleep this.sleep cx in
        acquire_after_sleep-Settled fired (record this { sleep = sleep }) cx' r
          (le_trans old (laws.poll_later this.sleep cx)) s
    acquire_from-Settled false this cx s r old = acquire_awake-Settled this cx r old

    -- With tokens wanted, at a rate that is not 0, with a last update that is not ahead of the clock
    -- and products of clock and rate that fit 128 bits: a poll of the bucket is either pending, and
    -- then the bucket sleeps, or grants at least one token and no more than wanted. Its loop never
    -- runs out of the rounds that the model gives it.
    pub poll_acquire-Settled :
        (this : LeakyBucket ℕ Sleep) (cx : Cx)
        → this.rate ≡ rate
        → this.last_update ≤ time cx
        → Settled want (poll_acquire this cx want)
    unfolding poll_acquire
    poll_acquire-Settled this cx r old = acquire_from-Settled this.sleeping this cx refl r old

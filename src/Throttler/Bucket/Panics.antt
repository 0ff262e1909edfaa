-- ===== src/Throttler/Bucket/Panics.antt =====
-- tokio-netem/src/throttler.rs: the bucket does not panic.
use trixter.Prelude.{ℕ, zero, suc, ◌≢◌, Bool, true, false, arith}
use trixter.Tokio.{Poll, pending, ready, panic, Timer}
use trixter.Throttler.Knob.{Rate}
use trixter.Throttler.Bucket.{
  LeakyBucket, update_budget, nap, acquire_loop, acquire_awake, acquire_after_sleep, acquire_from,
  poll_acquire, loop_fuel,
}

module _ {Cx Sleep R : Type 0} ⦃tm : Timer Cx Sleep⦄ ⦃ra : Rate R⦄ where
  acquire_loop-ne-panic :
      (fuel : ℕ) (this : LeakyBucket R Sleep) (cx : Cx) (want rate : ℕ)
      → (acquire_loop fuel this cx want rate).0 ≢ ready panic
  unfolding acquire_loop
  acquire_loop-ne-panic zero this cx want rate h = cc
  acquire_loop-ne-panic (suc fuel) this cx want rate h =
      let (this₁, cx₁) = update_budget this cx in
      let (fired, this₂, cx₂) = nap this₁ cx₁ rate in
      ground (arith, acquire_loop-ne-panic fuel this₂ cx₂ want rate)

  acquire_awake-ne-panic :
      (fuel : ℕ) (this : LeakyBucket R Sleep) (cx : Cx) (want : ℕ)
      → (acquire_awake fuel this cx want).0 ≢ ready panic
  unfolding acquire_awake
  acquire_awake-ne-panic fuel this cx want h =
      ground (arith, acquire_loop-ne-panic fuel this cx want (ra.rate this.rate))

  acquire_after_sleep-ne-panic :
      (fuel : ℕ) (fired : Poll (Unit {0})) (this : LeakyBucket R Sleep) (cx : Cx) (want : ℕ)
      → (acquire_after_sleep fuel fired this cx want).0 ≢ ready panic
  unfolding acquire_after_sleep
  acquire_after_sleep-ne-panic fuel pending this cx want h = cc
  acquire_after_sleep-ne-panic fuel (ready _) this cx want h =
      acquire_awake-ne-panic fuel (record this { sleeping = false }) cx want h

  acquire_from-ne-panic :
      (sleeping : Bool) (fuel : ℕ) (this : LeakyBucket R Sleep) (cx : Cx) (want : ℕ)
      → (acquire_from sleeping fuel this cx want).0 ≢ ready panic
  unfolding acquire_from
  acquire_from-ne-panic true fuel this cx want h =
      let (fired, sleep, cx') = tm.poll_sleep this.sleep cx in
      acquire_after_sleep-ne-panic fuel fired (record this { sleep = sleep }) cx' want h
  acquire_from-ne-panic false fuel this cx want h = acquire_awake-ne-panic fuel this cx want h

  pub poll_acquire-ne-panic :
      (this : LeakyBucket R Sleep) (cx : Cx) (want : ℕ)
      → (poll_acquire this cx want).0 ≢ ready panic
  unfolding poll_acquire
  poll_acquire-ne-panic this cx want h =
      acquire_from-ne-panic this.sleeping loop_fuel this cx want h

-- ===== src/Throttler/Writer/Changes.antt =====
-- tokio-netem/src/throttler.rs: how much a throttled writer sends while its rate is changed.
use native.Mathlib.Nat.{mul-sub}
use trixter.Prelude.{ℕ, ◌+◌, ◌-◌, ◌*◌, ◌≤◌, ◌<◌, refl, sym, List, arith, length}
use trixter.Tokio.{AsyncWrite, Timer, WriteContract}
use trixter.Throttler.Knob.{DynamicRate, set, dynamic_rate, dynamic_steady}
use trixter.Throttler.Bucket.{nanos_per_sec}
use trixter.Throttler.Writer.{ThrottledWriter, throttled_write}
use trixter.Throttler.Writer.Budget.{OnBudget}
use trixter.Throttler.Writer.Limit.{throttled_write-Preserves}
use trixter.Tokio.Calls.{Calls, Calls-Preserves}

-- What a holder of the knob does to the writer that reads it.
abbrev pub set_rate :
    {Sleep T : Type 0}
    → ThrottledWriter T DynamicRate Sleep
    → ℕ
    → ThrottledWriter T DynamicRate Sleep
set_rate this rate = record this { lb = record this.lb { rate = set this.lb.rate rate } }

module _ (Cx : Type 0) {Sleep T : Type 0} ⦃tm : Timer Cx Sleep⦄ ⦃w : AsyncWrite Cx T⦄ where
  -- Calls of the write half, with the rate set between them to any that is not 0. The number is the
  -- allowance of the run, in bytes times a second: what is in the bucket at its beginning, and, for
  -- each rate in turn, that rate times the advance of the bucket's clock while it holds.
  pub data Metering (first : ThrottledWriter T DynamicRate Sleep)
      : ThrottledWriter T DynamicRate Sleep → ℕ → Type 0 where
    begun : Metering first first (first.lb.budget * nanos_per_sec)
    at_rate :
        {t t' : ThrottledWriter T DynamicRate Sleep} {allowance : ℕ}
        → Metering first t allowance
        → (rate : ℕ) → 0 < rate
        → Calls Cx (set_rate t rate) t'
        → Metering first t' (allowance + rate * (t'.lb.last_update - t.lb.last_update))

-- An account that is opened now.
pub opened :
    {Sleep T : Type 0} (sent : T → List ℕ) (this : ThrottledWriter T DynamicRate Sleep)
    → OnBudget sent
        (length (sent this.inner) + this.lb.budget)
        this.lb.last_update
        this.lb.rate.size
        this
opened sent this = record { metered = record { within = omega arith }; at_rate = refl }

closed :
    (spent left rate since now start : ℕ)
    → (spent + left) * nanos_per_sec + rate * since ≤ start * nanos_per_sec + rate * now
    → (spent + left) * nanos_per_sec ≤ start * nanos_per_sec + rate * (now - since)
closed spent left rate since now start h = omega (arith, mul-sub rate now since)

-- An account that is closed: what was paid for before it, and the time while it was open, pay for
-- what is spent and left.
pub OnBudget-closed :
    {Sleep T : Type 0} (sent : T → List ℕ) (had since rate start allowance : ℕ)
    (this : ThrottledWriter T DynamicRate Sleep)
    → OnBudget sent had since rate this
    → had * nanos_per_sec ≤ start * nanos_per_sec + allowance
    → (length (sent this.inner) + this.lb.budget) * nanos_per_sec
      ≤ start * nanos_per_sec + (allowance + rate * (this.lb.last_update - since))
OnBudget-closed sent had since rate start allowance this b before =
    let paid =
      closed (length (sent this.inner)) this.lb.budget this.lb.rate.size since this.lb.last_update
        had b.metered.within in
    rw (sym b.at_rate) (omega (arith, paid, before))

module _ {Cx Sleep T : Type 0} ⦃tm : Timer Cx Sleep⦄ ⦃w : AsyncWrite Cx T⦄ {sent : T → List ℕ}
    (c : WriteContract w sent) where
  -- A writer in any state, over an inner writer that keeps its contract, used by any calls of the
  -- write half in any order while its rate is set between them to any rates that are not 0: the
  -- bytes that it sends and the tokens that it still has are at most the tokens that it had at
  -- first, and each rate times the advance of the bucket's clock while that rate held.
  pub sent_within_rates :
      {first this : ThrottledWriter T DynamicRate Sleep} {allowance : ℕ}
      → Metering Cx first this allowance
      → (length (sent this.inner) + this.lb.budget) * nanos_per_sec
        ≤ length (sent first.inner) * nanos_per_sec + allowance
  sent_within_rates {first} begun = omega arith
  sent_within_rates {first} (at_rate {t} {t'} {allowance} before rate pos calls) =
      let had = length (sent t.inner) + t.lb.budget in
      let b =
        Calls-Preserves
          (throttled_write-Preserves dynamic_steady sent had t.lb.last_update rate c pos)
          (opened sent (set_rate t rate)) calls in
      OnBudget-closed sent had t.lb.last_update rate (length (sent first.inner)) allowance t' b
        (sent_within_rates before)

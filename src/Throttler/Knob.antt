-- ===== src/Throttler/Knob.antt =====
-- tokio-netem/src/throttler.rs: the trait `Rate`, a plain rate and the shared knob `DynamicRate`.
use trixter.Prelude.{ℕ, ◌≡◌, refl, Bool, ◌==◌}

-- Each method is a load of its own, so a knob that another task sets between two loads of one poll
-- is a `Rate` whose `is_unlimited` and `rate` disagree.
pub record Rate (R : Type 0) : Type 0 where
  pub rate : R → ℕ
  pub is_unlimited : R → Bool

instance abbrev pub usize_rate : Rate ℕ
usize_rate = record { rate = λ n. n; is_unlimited = λ n. n == 0 }

pub record DynamicRate : Type 0 where
  pub size : ℕ

abbrev pub new : ℕ → DynamicRate
new size = record { size = size }

abbrev pub set : DynamicRate → ℕ → DynamicRate
set this size = record this { size = size }

instance abbrev pub dynamic_rate : Rate DynamicRate
dynamic_rate = record { rate = λ this. this.size; is_unlimited = λ this. this.size == 0 }

-- No load goes between the two of a poll: the rate is unlimited exactly if it is 0.
pub record SteadyRate {R : Type 0} (ra : Rate R) : Type 0 where
  pub unlimited_at_zero : (r : R) → ra.is_unlimited r ≡ (ra.rate r == 0)

pub usize_steady : SteadyRate usize_rate
usize_steady = record { unlimited_at_zero = λ r. refl }

pub dynamic_steady : SteadyRate dynamic_rate
dynamic_steady = record { unlimited_at_zero = λ r. refl }

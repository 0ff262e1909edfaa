-- ===== src/Probability.antt =====
-- tokio-netem/src/probability.rs: the trait `Probability`, its implementations, and the latch
-- `try_trigger`.
mod Tests
pub mod Checked
pub mod Latch
use trixter.Prelude.{ℕ, Bool, true, false, ◌&&◌, ◌==◌, ltb, not, if◌then◌else◌}
use trixter.Tokio.{
  Result, ok, err, panic, spin, ◌>>=◌, invalid_input, dynamic_probability_error, Rng, Float,
}

-- The trait's two methods; the adapters call only the second.
pub record ProbabilityValue (P F : Type 0) : Type 0 where
  pub probability : P → F

pub record Probability (P : Type 0) : Type 0 where
  pub threshold : P → ℕ

pub record DynamicProbability : Type 0 where
  pub probability_rate_bits : ℕ
  pub probability_threshold : ℕ

module _ {F : Type 0} ⦃fl : Float F⦄ where
  -- The ranges `..=0.0` and `0.0..=1.0` of the `match`.
  unfoldable pub f64_probability : F → F
  f64_probability x =
      if fl.is_nan x
      then fl.zero_f64
      else if fl.at_most_zero x
      then fl.zero_f64
      else if fl.at_least_zero x && fl.at_most_one x
      then x
      else fl.one_f64

  instance abbrev pub f64_value : ProbabilityValue F F
  f64_value = record { probability = f64_probability }

  instance abbrev pub f64_threshold : Probability F
  f64_threshold = record { threshold = λ x. fl.scale_u64 (f64_probability x) }

  instance abbrev pub dynamic_value : ProbabilityValue DynamicProbability F
  dynamic_value = record { probability = λ this. fl.from_bits this.probability_rate_bits }

  unfoldable pub validate_probability_rate : F → Result (Unit {0})
  validate_probability_rate probability_rate =
      if not (fl.at_least_zero probability_rate && fl.at_most_one probability_rate)
      then err (invalid_input dynamic_probability_error)
      else ok tt

  -- The pair of atomics that `new` and `set` store.
  stored : F → DynamicProbability
  stored probability = record {
    probability_rate_bits = fl.to_bits probability;
    probability_threshold = fl.scale_u64 (fl.clamp_unit probability);
  }

  unfoldable pub new : F → Result DynamicProbability
  unfolding validate_probability_rate stored
  new probability = do _ ← validate_probability_rate probability; ok (stored probability)

  -- A refused rate leaves the knob as it is.
  set_checked : Result (Unit {0}) → DynamicProbability → F → Result (Unit {0}) × DynamicProbability
  unfolding stored
  set_checked (ok _) this probability = (ok tt, stored probability)
  set_checked (err e) this probability = (err e, this)
  set_checked panic this probability = (panic, this)
  set_checked spin this probability = (spin, this)

  unfoldable pub set : DynamicProbability → F → Result (Unit {0}) × DynamicProbability
  unfolding set_checked validate_probability_rate
  set this probability = set_checked (validate_probability_rate probability) this probability

instance abbrev pub dynamic_threshold : Probability DynamicProbability
dynamic_threshold = record { threshold = λ this. this.probability_threshold }

module _ {P G : Type 0} ⦃pr : Probability P⦄ ⦃rn : Rng G⦄ where
  -- The latch, the generator and the answer.
  unfoldable pub try_trigger : Bool → G → P → Bool × Bool × G
  try_trigger triggered rng prob =
      let th = pr.threshold prob in
      let (draw, rng') = rn.next_u64 rng in
      if triggered
      then (true, true, rng)
      else if th == 0
      then (false, false, rng)
      else if ltb draw th
      then (true, true, rng')
      else (false, triggered, rng')

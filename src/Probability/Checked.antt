-- ===== src/Probability/Checked.antt =====
-- tokio-netem/src/probability.rs: what the dynamic knob stores is what a plain probability means.
use trixter.Prelude.{◌≡◌, true, false, ◌&&◌, arith}
use trixter.Tokio.{ok, err, invalid_input, dynamic_probability_error, Float}
use trixter.Probability.{
  DynamicProbability, f64_value, f64_threshold, dynamic_value, dynamic_threshold, f64_probability,
  new, set,
}

-- What the code uses of `f64`: a NaN is not in the range, `clamp` keeps what is in it, both zeros
-- scale alike, and the bits of a number give it back.
pub record FloatLaws {F : Type 0} (fl : Float F) : Type 0 where
  pub nan_is_below : (x : F) → fl.is_nan x ≡ true → fl.at_least_zero x ≡ false
  pub clamp_within :
      (x : F) → fl.at_least_zero x ≡ true → fl.at_most_one x ≡ true → fl.clamp_unit x ≡ x
  pub zeros_scale :
      (x : F)
      → fl.at_least_zero x ≡ true
      → fl.at_most_zero x ≡ true
      → fl.scale_u64 x ≡ fl.scale_u64 fl.zero_f64
  pub bits_back : (x : F) → fl.from_bits (fl.to_bits x) ≡ x

abbrev pub InUnit : {F : Type 0} → Float F → F → Type 0
InUnit fl x = (fl.at_least_zero x && fl.at_most_one x) ≡ true

module _ {F : Type 0} ⦃fl : Float F⦄ (laws : FloatLaws fl) where
  -- A rate between 0 and 1 is taken by `set` on any knob, which then shows that rate, and the same
  -- threshold as the plain rate.
  pub set_in_range :
      (this : DynamicProbability) (x : F)
      → InUnit fl x
      → ((set this x).0 ≡ ok tt)
        × (fl.from_bits (set this x).1.probability_rate_bits ≡ x)
        × ((set this x).1.probability_threshold ≡ fl.scale_u64 (f64_probability x))
  unfolding set f64_probability
  set_in_range this x h =
      ground (arith, laws.nan_is_below x, laws.clamp_within x, laws.zeros_scale x, laws.bits_back x)

module _ {F : Type 0} ⦃fl : Float F⦄ where
  -- A rate that is not between 0 and 1 is refused by `new` and by `set`, which leaves the knob as it
  -- was.
  pub set_out_of_range :
      (this : DynamicProbability) (x : F)
      → (fl.at_least_zero x && fl.at_most_one x) ≡ false
      → (new x ≡ err (invalid_input dynamic_probability_error))
        × (set this x ≡ (err (invalid_input dynamic_probability_error), this))
  unfolding set new
  set_out_of_range this x h = ground arith

-- ===== src/Probability/Tests.antt =====
-- tokio-netem/src/probability.rs: examples.
use trixter.Prelude.{ℕ, ◌≡◌, refl}
use trixter.Tokio.{ok, err, invalid_input, dynamic_probability_error}
use trixter.Fixtures.{percent, percent_laws}
use trixter.Probability.{DynamicProbability, dynamic_threshold, f64_probability, new, set}
use trixter.Probability.Checked.{set_in_range, set_out_of_range}

abbrev thirty : ℕ
thirty = 30

abbrev too_many : ℕ
too_many = 130

abbrev off : DynamicProbability
off = record { probability_rate_bits = 0; probability_threshold = 0 }

set_in_range_example :
    ((set off thirty).0 ≡ ok tt)
    × ((set off thirty).1.probability_rate_bits ≡ thirty)
    × ((set off thirty).1.probability_threshold ≡ percent.scale_u64 (f64_probability thirty))
set_in_range_example = set_in_range percent_laws off thirty refl

set_out_of_range_example :
    (new too_many ≡ err (invalid_input dynamic_probability_error))
    × (set off too_many ≡ (err (invalid_input dynamic_probability_error), off))
set_out_of_range_example = set_out_of_range off too_many refl

-- ===== src/Proxy/Settings.antt =====
-- trixter/src/main.rs: `Config`, its check, and the seed that `main` fills in.
use trixter.Prelude.{ℕ, not, ◌&&◌, Option, none, some, if◌then◌else◌}
use trixter.Tokio.{Float}

pub record Config (Addr F : Type 0) : Type 0 where
  pub listen : Addr
  pub upstream : Addr
  pub api : Addr
  pub delay_ms : ℕ
  pub throttle_rate_bytes : ℕ
  pub slice_size_bytes : ℕ
  pub terminate_probability_rate : F
  pub corrupt_probability_rate : F
  pub connection_duration_ms : ℕ
  pub random_seed : Option ℕ

-- `anyhow::Result<()>` of the check: the option that is refused, with the number it was given.
pub data Validity (F : Type 0) : Type 0 where
  valid : Validity F
  bad_terminate_probability_rate bad_corrupt_probability_rate : F → Validity F

module _ {Addr F : Type 0} ⦃fl : Float F⦄ where
  unfoldable pub validate : Config Addr F → Validity F
  validate this =
      if not (
        fl.at_least_zero this.terminate_probability_rate
        && fl.at_most_one this.terminate_probability_rate)
      then bad_terminate_probability_rate this.terminate_probability_rate
      else if not (
          fl.at_least_zero this.corrupt_probability_rate
          && fl.at_most_one this.corrupt_probability_rate)
      then bad_corrupt_probability_rate this.corrupt_probability_rate
      else valid

-- A seed that was not given is drawn: `drawn` is what `rand::random` returns.
abbrev pub seed_or : ℕ → Option ℕ → Option ℕ
seed_or drawn none = some drawn
seed_or drawn (some seed) = some seed

abbrev pub with_seed : {Addr F : Type 0} → Config Addr F → ℕ → Config Addr F
with_seed cfg drawn = record cfg { random_seed = seed_or drawn cfg.random_seed }

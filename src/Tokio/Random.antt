-- ===== src/Tokio/Random.antt =====
-- The random numbers of the `rand` crate, and the `f64` of the language, as interfaces.
use trixter.Prelude.{ℕ, Bool, List}

-- `SmallRng` and the calls that are made of it.
pub record Rng (G : Type 0) : Type 0 where
  pub next_u64 : G → ℕ × G
  pub fill_bytes : G → ℕ → List ℕ × G
  pub random_range : G → ℕ → ℕ → ℕ × G

-- `f64`: its comparisons with 0.0 and 1.0 are false of a NaN. `scale_u64 x` is
-- `(x * u64::MAX as f64) as u64`.
pub record Float (F : Type 0) : Type 0 where
  pub zero_f64 : F
  pub one_f64 : F
  pub is_nan : F → Bool
  pub at_least_zero : F → Bool
  pub at_most_zero : F → Bool
  pub at_most_one : F → Bool
  pub clamp_unit : F → F
  pub scale_u64 : F → ℕ
  pub to_bits : F → ℕ
  pub from_bits : ℕ → F

-- The arithmetic on `f64` of an average, with `Duration::as_secs_f64` on nanoseconds.
pub record Average (F : Type 0) : Type 0 where
  pub as_secs_f64 : ℕ → F
  pub micro : F
  pub max_f64 : F → F → F
  pub from_u64 : ℕ → F
  pub div_f64 : F → F → F

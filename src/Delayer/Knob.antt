-- ===== src/Delayer/Knob.antt =====
-- tokio-netem/src/delayer.rs: the trait `Duration`, a plain duration and the shared knob
-- `DynamicDuration`. Durations are nanoseconds; the knob keeps them in a `u64`.
use trixter.Prelude.{ℕ, ◌%◌, ◌^◌}

pub record Duration (D : Type 0) : Type 0 where
  pub duration : D → ℕ

instance abbrev pub plain_duration : Duration ℕ
plain_duration = record { duration = λ nanos. nanos }

pub record DynamicDuration : Type 0 where
  pub cell : ℕ

-- `duration.as_nanos() as u64`
abbrev pub as_u64 : ℕ → ℕ
as_u64 nanos = nanos % 2 ^ 64

abbrev pub new : ℕ → DynamicDuration
new duration = record { cell = as_u64 duration }

abbrev pub set : DynamicDuration → ℕ → DynamicDuration
set this duration = record this { cell = as_u64 duration }

instance abbrev pub dynamic_duration : Duration DynamicDuration
dynamic_duration = record { duration = λ this. this.cell }

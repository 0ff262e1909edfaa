-- ===== src/Slicer/Knob.antt =====
-- tokio-netem/src/slicer.rs: the trait `Size`, a plain size and the shared knob `DynamicSize`.
use trixter.Prelude.{ℕ, Bool, ◌==◌}

-- Each method is a load of its own, so a knob that another task sets between the two loads of one
-- poll is a `Size` whose `is_zero` and `size` disagree.
pub record Size (S : Type 0) : Type 0 where
  pub size : S → ℕ
  pub is_zero : S → Bool

instance abbrev pub usize_size : Size ℕ
usize_size = record { size = λ n. n; is_zero = λ n. n == 0 }

pub record DynamicSize : Type 0 where
  pub cell : ℕ

abbrev pub new : ℕ → DynamicSize
new size = record { cell = size }

abbrev pub set : DynamicSize → ℕ → DynamicSize
set this size = record this { cell = size }

instance abbrev pub dynamic_size : Size DynamicSize
dynamic_size = record { size = λ this. this.cell; is_zero = λ this. this.cell == 0 }

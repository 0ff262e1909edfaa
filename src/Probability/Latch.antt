-- ===== src/Probability/Latch.antt =====
-- tokio-netem/src/probability.rs: the latch `try_trigger`.
use trixter.Prelude.{◌≡◌, Bool, ◌||◌, ◌==◌, if◌then◌else◌, ltb, arith}
use trixter.Tokio.{Rng}
use trixter.Probability.{Probability, try_trigger}

module _ {P G : Type 0} ⦃pr : Probability P⦄ ⦃rn : Rng G⦄ where
  -- The answer is the new state of the latch. It is true exactly if the latch was set or the number
  -- drawn is below the threshold; a draw is made exactly if the latch is open and the threshold is
  -- not 0.
  pub try_trigger_lem :
      (triggered : Bool) (rng : G) (prob : P)
      → let (hit, triggered', rng') = try_trigger triggered rng prob in
        (hit ≡ triggered')
        × (hit ≡ (triggered || ltb (rn.next_u64 rng).0 (pr.threshold prob)))
        × (rng' ≡ (if triggered || (pr.threshold prob == 0) then rng else (rn.next_u64 rng).1))
  unfolding try_trigger
  try_trigger_lem triggered rng prob = ground arith

-- ===== src/Terminator/Tests.antt =====
-- tokio-netem/src/terminator.rs: examples.
use trixter.Prelude.{ℕ, ◌≡◌, refl, true, List, [], ◌∷◌}
use trixter.Tokio.{ready, err}
use trixter.Fixtures.{Tape, blank, running, tape, tape_read, tape_buf_read, counter}
use trixter.Probability.{DynamicProbability, dynamic_threshold}
use trixter.Terminator.{
  Terminator, with_rng, put_inner, terminated, terminator_write, terminator_read,
  terminator_buf_read,
}
use trixter.Io.{forward}
use trixter.Terminator.Latched.{terminated_for_good}

abbrev rare : DynamicProbability
rare = record { probability_rate_bits = 0; probability_threshold = 5 }

abbrev fresh : Terminator Tape DynamicProbability ℕ
fresh = with_rng blank rare 3

abbrev dead : Terminator Tape DynamicProbability ℕ
dead = record fresh { triggered = true }

terminated_for_good_example :
    (terminator_write.poll_write dead running (1 ∷ []) ≡ (ready (err terminated), dead, running))
    × (terminator_write.poll_write_vectored dead running ((1 ∷ []) ∷ [])
        ≡ (ready (err terminated), dead, running))
    × (terminator_write.poll_flush dead running ≡ (ready (err terminated), dead, running))
    × (terminator_write.poll_shutdown dead running ≡ (ready (err terminated), dead, running))
    × ((terminator_read {B = List ℕ}).poll_read dead running (9 ∷ [])
        ≡ (ready (err terminated), dead, 9 ∷ [], running))
    × (terminator_buf_read.poll_fill_buf dead running
        ≡ forward (put_inner dead) (tape_buf_read.poll_fill_buf blank running))
    × ((terminator_buf_read {Cx = ℕ}).consume dead 0
        ≡ put_inner dead (tape_buf_read.consume blank 0))
terminated_for_good_example =
    terminated_for_good dead running (1 ∷ []) ((1 ∷ []) ∷ []) (9 ∷ []) 0 refl

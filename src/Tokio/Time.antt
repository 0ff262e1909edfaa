-- ===== src/Tokio/Time.antt =====
-- `tokio::time`: `Instant::now` and `Sleep`, as an interface over the task's context. Instants are
-- nanoseconds.
use trixter.Prelude.{ℕ, ◌+◌, ◌≤◌, ◌≡◌}
use trixter.Tokio.Task.{Poll, ready}

pub record Timer (Cx Sleep : Type 0) : Type 0 where
  pub now : Cx → ℕ × Cx
  pub sleep : ℕ → Cx → Sleep
  pub reset : Sleep → ℕ → Sleep
  pub poll_sleep : Sleep → Cx → Poll (Unit {0}) × Sleep × Cx

-- The clock does not run backwards, `reset` sets the deadline, and a sleep is over only when the
-- clock has reached its deadline. `time` is the clock as the context stands.
pub record TimerLaws {Cx Sleep : Type 0} (tm : Timer Cx Sleep) (time : Cx → ℕ)
    (deadline : Sleep → ℕ) : Type 0 where
  pub now_reads : (cx : Cx) → (tm.now cx).0 ≡ time (tm.now cx).1
  pub now_later : (cx : Cx) → time cx ≤ (tm.now cx).0
  pub reset_deadline : (s : Sleep) (at : ℕ) → deadline (tm.reset s at) ≡ at
  pub poll_later : (s : Sleep) (cx : Cx) → time cx ≤ time (tm.poll_sleep s cx).2
  pub poll_deadline : (s : Sleep) (cx : Cx) → deadline (tm.poll_sleep s cx).1 ≡ deadline s
  pub fires_late :
      (s : Sleep) (cx : Cx)
      → (tm.poll_sleep s cx).0 ≡ ready tt
      → deadline s ≤ time (tm.poll_sleep s cx).2

-- A sleep is over at the first poll that finds the clock past its deadline, by no more than the
-- timer's resolution.
pub record PromptTimer {Cx Sleep : Type 0} (tm : Timer Cx Sleep) (time : Cx → ℕ)
    (deadline : Sleep → ℕ) (resolution : ℕ) : Type 0 where
  pub fires :
      (s : Sleep) (cx : Cx) → deadline s + resolution ≤ time cx → (tm.poll_sleep s cx).0 ≡ ready tt

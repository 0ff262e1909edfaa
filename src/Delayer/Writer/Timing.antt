-- ===== src/Delayer/Writer/Timing.antt =====
-- tokio-netem/src/delayer.rs: when a delayed writer calls the inner one.
use native.Mathlib.Nat.{le_refl, le_trans, le_of_eq}
use trixter.Prelude.{
  ℕ, ◌+◌, ◌≤◌, ◌≡◌, refl, ap, sym, ◌∙◌, subst, inl, inr, ◌==◌, ==_iff, Bool-cases, arith,
}
use trixter.Tokio.{Poll, pending, ready, Polled, Timer, TimerLaws}
use trixter.Io.{forward}
use trixter.Delayer.Knob.{Duration}
use trixter.Delayer.Delay.{State, idle, delayed, idle-ne-delayed}
use trixter.Delayer.Writer.{DelayedWriter, put_inner, poll_with_write_delay}
use trixter.Delayer.Writer.Steps.{
  in_state, woken, delay_then_call, poll_with_write_delay-eq-delay_then_call,
}

module _ {Cx Sleep T D A : Type 0} ⦃tm : Timer Cx Sleep⦄ ⦃du : Duration D⦄ {time : Cx → ℕ}
    {deadline : Sleep → ℕ} (laws : TimerLaws tm time deadline) (f : T → Cx → Polled A T Cx) where
  -- A poll came to `res`: it armed or kept a sleep that ends no earlier than `due`, and made no call;
  -- or it made the call, when the clock stood at `due` or later, and the delay is idle again.
  pub data Outcome (due : ℕ) (this : DelayedWriter T D Sleep)
      (res : Polled A (DelayedWriter T D Sleep) Cx) : Type 0 where
    waits :
        (sleep : Sleep) (cx : Cx)
        → due ≤ deadline sleep
        → res ≡ (pending, in_state this delayed sleep, cx)
        → Outcome due this res
    calls :
        (sleep : Sleep) (cx : Cx)
        → due ≤ time cx
        → res ≡ forward (put_inner (in_state this idle sleep)) (f this.inner cx)
        → Outcome due this res

  woken-Outcome :
      (due : ℕ) (this : DelayedWriter T D Sleep) (asleep : Sleep) (cx : Cx)
      → due ≤ deadline asleep
      → Outcome due this (woken f (tm.poll_sleep asleep cx) this)
  unfolding woken
  woken-Outcome due this asleep cx h =
      let (fired, sleep, cx') = tm.poll_sleep asleep cx in
      go fired sleep cx' (le_trans h (le_of_eq (sym (laws.poll_deadline asleep cx))))
        (λ e. le_trans h (laws.fires_late asleep cx e))
    where
      go :
          (fired : Poll (Unit {0})) (sleep : Sleep) (cx' : Cx)
          → due ≤ deadline sleep
          → (fired ≡ ready tt → due ≤ time cx')
          → Outcome due this (woken f (fired, sleep, cx') this)
      go pending sleep cx' later over = waits sleep cx' later refl
      go (ready tt) sleep cx' later over = calls sleep cx' (over refl) refl

  idle_parts-Outcome :
      (due : ℕ) (inner : T) (sleep : Sleep) (d : D) (cx : Cx)
      → due ≤ time cx + du.duration d
      → let this : DelayedWriter T D Sleep = record {
        inner = inner;
        delay = record { state = idle; sleep = sleep; delay_duration = d };
      } in
        Outcome due this (delay_then_call f idle this cx)
  unfolding delay_then_call
  idle_parts-Outcome due inner sleep d cx h =
      let (now, cx') = tm.now cx in
      let this : DelayedWriter T D Sleep = record {
        inner = inner;
        delay = record { state = idle; sleep = sleep; delay_duration = d };
      } in
      elim (Bool-cases (du.duration d == 0)) [
        | inl z ↦
            let none : du.duration d ≡ 0 = (==_iff (du.duration d) 0).0 z in
            rw z (calls sleep cx (omega arith) refl)
        | inr nz ↦ rw nz (
            woken-Outcome due this (tm.reset sleep (now + du.duration d)) cx'
              (omega (arith, laws.reset_deadline sleep (now + du.duration d), laws.now_later cx)))
      ]

  -- What is due: an idle writer's call after the configured delay, a delayed one's when its sleep
  -- ends.
  abbrev pub Due : ℕ → State → DelayedWriter T D Sleep → Cx → Type 0
  Due due idle this cx = due ≤ time cx + du.duration this.delay.delay_duration
  Due due delayed this cx = due ≤ deadline this.delay.sleep

  delay_then_call-Outcome :
      (due : ℕ) (state : State) (this : DelayedWriter T D Sleep) (cx : Cx)
      → this.delay.state ≡ state
      → Due due state this cx
      → Outcome due this (delay_then_call f state this cx)
  delay_then_call-Outcome due idle this cx s h =
      subst (λ t. Outcome due t (delay_then_call f idle t cx))
        (ap (λ state. in_state this state this.delay.sleep) (sym s))
        (idle_parts-Outcome due this.inner this.delay.sleep this.delay.delay_duration cx h)
  delay_then_call-Outcome due delayed this cx s h =
      unfold delay_then_call in woken-Outcome due this this.delay.sleep cx h

  -- One poll, with something due by a time: it makes the call only when the clock has come to that
  -- time; else it is pending, and the same remains due. It neither panics nor runs out of rounds.
  pub poll_with_write_delay-Outcome :
      (due : ℕ) (this : DelayedWriter T D Sleep) (cx : Cx)
      → Due due this.delay.state this cx
      → Outcome due this (poll_with_write_delay f this cx)
  poll_with_write_delay-Outcome due this cx h =
      subst (Outcome due this) (sym (poll_with_write_delay-eq-delay_then_call f this cx))
        (delay_then_call-Outcome due this.delay.state this cx refl h)

module _ (Cx : Type 0) {Sleep T D A : Type 0} ⦃tm : Timer Cx Sleep⦄ ⦃du : Duration D⦄
    (f : T → Cx → Polled A T Cx) where
  -- Polls that came back with the delay still running.
  pub data Waited (first : DelayedWriter T D Sleep) (cx₀ : Cx)
      : DelayedWriter T D Sleep → Type 0 where
    armed :
        (poll_with_write_delay f first cx₀).1.delay.state ≡ delayed
        → Waited first cx₀ (poll_with_write_delay f first cx₀).1
    again :
        {t : DelayedWriter T D Sleep}
        → Waited first cx₀ t
        → (cx : Cx) → (poll_with_write_delay f t cx).1.delay.state ≡ delayed
        → Waited first cx₀ (poll_with_write_delay f t cx).1

module _ {Cx Sleep T D A : Type 0} ⦃tm : Timer Cx Sleep⦄ ⦃du : Duration D⦄ {time : Cx → ℕ}
    {deadline : Sleep → ℕ} (laws : TimerLaws tm time deadline) (f : T → Cx → Polled A T Cx) where
  due_of_waiting :
      (due : ℕ) (this : DelayedWriter T D Sleep) (res : Polled A (DelayedWriter T D Sleep) Cx)
      → Outcome laws f due this res
      → res.1.delay.state ≡ delayed
      → due ≤ deadline res.1.delay.sleep
  due_of_waiting due this res (waits sleep cx later e) s =
      subst (λ (x : Polled A (DelayedWriter T D Sleep) Cx). due ≤ deadline x.1.delay.sleep) (sym e)
        later
  due_of_waiting due this res (calls sleep cx later e) s = absurd (
      idle-ne-delayed
        (sym (ap (λ (x : Polled A (DelayedWriter T D Sleep) Cx). x.1.delay.state) e) ∙ s))

  Waited-due :
      (cx₀ : Cx) {first t : DelayedWriter T D Sleep}
      → first.delay.state ≡ idle
      → Waited Cx f first cx₀ t
      → (t.delay.state ≡ delayed)
        × (time cx₀ + du.duration first.delay.delay_duration ≤ deadline t.delay.sleep)
  Waited-due cx₀ {first} s (armed d) =
      let due = time cx₀ + du.duration first.delay.delay_duration in
      let start : Due laws f due first.delay.state first cx₀ =
        subst (λ state. Due laws f due state first cx₀) (sym s) (le_refl due) in
      (d, due_of_waiting due first _ (poll_with_write_delay-Outcome laws f due first cx₀ start) d)
  Waited-due cx₀ {first} s (again {t = t} ws cx d) =
      let due = time cx₀ + du.duration first.delay.delay_duration in
      let (asleep, later) = Waited-due cx₀ s ws in
      let start : Due laws f due t.delay.state t cx =
        subst (λ state. Due laws f due state t cx) (sym asleep) later in
      (d, due_of_waiting due t _ (poll_with_write_delay-Outcome laws f due t cx start) d)

  -- A write or shutdown whose first poll found the delay idle, and whose polls so far came back with
  -- the delay running: its next poll calls the inner writer only if the clock has advanced by the
  -- configured duration since the first poll; else it is pending on a sleep that ends no earlier.
  pub Waited-Outcome :
      (cx₀ cx : Cx) {first t : DelayedWriter T D Sleep}
      → first.delay.state ≡ idle
      → Waited Cx f first cx₀ t
      → Outcome laws f
          (time cx₀ + du.duration first.delay.delay_duration)
          t
          (poll_with_write_delay f t cx)
  Waited-Outcome cx₀ cx {first} {t} s ws =
      let due = time cx₀ + du.duration first.delay.delay_duration in
      let (asleep, later) = Waited-due cx₀ s ws in
      poll_with_write_delay-Outcome laws f due t cx
        (subst (λ state. Due laws f due state t cx) (sym asleep) later)

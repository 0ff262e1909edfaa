-- ===== src/Delayer/Writer/Progress.antt =====
-- tokio-netem/src/delayer.rs: a delayed writer does call the inner one.
use trixter.Prelude.{ℕ, ◌+◌, ◌≤◌, ◌≡◌, refl, sym, ◌∙◌, subst, inl, inr, ◌==◌, Bool-cases, arith}
use trixter.Tokio.{Poll, pending, ready, Polled, Timer, TimerLaws, PromptTimer}
use trixter.Io.{forward}
use trixter.Delayer.Knob.{Duration}
use trixter.Delayer.Delay.{State, idle, delayed, idle-ne-delayed}
use trixter.Delayer.Writer.{DelayedWriter, put_inner, poll_with_write_delay}
use trixter.Delayer.Writer.Steps.{
  in_state, woken, delay_then_call, poll_with_write_delay-eq-delay_then_call,
}
use trixter.Delayer.Writer.Timing.{Waited, armed, again}

pending-ne-ready : {A : Type 0} {a : A} → pending ≡ ready a → ⊥
pending-ne-ready h = cc

module _ {Cx Sleep T D A : Type 0} ⦃tm : Timer Cx Sleep⦄ ⦃du : Duration D⦄ {time : Cx → ℕ}
    {deadline : Sleep → ℕ} (laws : TimerLaws tm time deadline) (f : T → Cx → Polled A T Cx) where
  -- A poll that leaves the delay running leaves the deadline of its sleep.
  woken-deadline :
      (asleep : Sleep) (this : DelayedWriter T D Sleep) (cx : Cx)
      → let res = woken f (tm.poll_sleep asleep cx) this in
        res.1.delay.state ≡ delayed → deadline res.1.delay.sleep ≡ deadline asleep
  unfolding woken
  woken-deadline asleep this cx =
      let (fired, sleep, cx') = tm.poll_sleep asleep cx in
      go fired sleep cx' (laws.poll_deadline asleep cx)
    where
      go :
          (fired : Poll (Unit {0})) (sleep : Sleep) (cx' : Cx)
          → deadline sleep ≡ deadline asleep
          → (woken f (fired, sleep, cx') this).1.delay.state ≡ delayed
          → deadline (woken f (fired, sleep, cx') this).1.delay.sleep ≡ deadline asleep
      go pending sleep cx' same d = same
      go (ready tt) sleep cx' same d = absurd (idle-ne-delayed d)

  first-deadline :
      (inner : T) (sleep : Sleep) (d : D) (cx : Cx)
      → let this : DelayedWriter T D Sleep = record {
        inner = inner;
        delay = record { state = idle; sleep = sleep; delay_duration = d };
      } in
        let res = delay_then_call f idle this cx in
        res.1.delay.state ≡ delayed → deadline res.1.delay.sleep ≡ (tm.now cx).0 + du.duration d
  unfolding delay_then_call
  first-deadline inner sleep d cx =
      let (now, cx') = tm.now cx in
      let this : DelayedWriter T D Sleep = record {
        inner = inner;
        delay = record { state = idle; sleep = sleep; delay_duration = d };
      } in
      elim (Bool-cases (du.duration d == 0)) [
        | inl z ↦ rw z (λ s. absurd (idle-ne-delayed s))
        | inr nz ↦ rw nz (λ s.
            woken-deadline (tm.reset sleep (now + du.duration d)) this cx' s
            ∙ laws.reset_deadline sleep (now + du.duration d))
      ]

  parts-deadline :
      (due : ℕ) (state : State) (inner : T) (sleep : Sleep) (d : D) (cx : Cx)
      → (state ≡ idle → (tm.now cx).0 + du.duration d ≡ due)
      → (state ≡ delayed → deadline sleep ≡ due)
      → let this : DelayedWriter T D Sleep = record {
        inner = inner;
        delay = record { state = state; sleep = sleep; delay_duration = d };
      } in
        (delay_then_call f state this cx).1.delay.state ≡ delayed
        → deadline (delay_then_call f state this cx).1.delay.sleep ≡ due
  parts-deadline due idle inner sleep d cx fresh running =
      λ s. first-deadline inner sleep d cx s ∙ fresh refl
  parts-deadline due delayed inner sleep d cx fresh running =
      unfold delay_then_call in
      (λ s.
        woken-deadline sleep
          (record {
            inner = inner;
            delay = record { state = delayed; sleep = sleep; delay_duration = d };
          })
          cx s
        ∙ running refl)

  -- One poll, when a sleep that it would set or that is running ends at `due`.
  poll-deadline :
      (due : ℕ) (t : DelayedWriter T D Sleep) (cx : Cx)
      → (t.delay.state ≡ idle → (tm.now cx).0 + du.duration t.delay.delay_duration ≡ due)
      → (t.delay.state ≡ delayed → deadline t.delay.sleep ≡ due)
      → (poll_with_write_delay f t cx).1.delay.state ≡ delayed
      → deadline (poll_with_write_delay f t cx).1.delay.sleep ≡ due
  poll-deadline due t cx fresh running =
      subst
        (λ (x : Polled A (DelayedWriter T D Sleep) Cx).
          x.1.delay.state ≡ delayed → deadline x.1.delay.sleep ≡ due)
        (sym (poll_with_write_delay-eq-delay_then_call f t cx))
        (parts-deadline due t.delay.state t.inner t.delay.sleep t.delay.delay_duration cx fresh
          running)

  -- The sleep of a writer that waits ends when the first poll has set it to.
  Waited-deadline :
      (cx₀ : Cx) {first t : DelayedWriter T D Sleep}
      → first.delay.state ≡ idle
      → Waited Cx f first cx₀ t
      → (t.delay.state ≡ delayed)
        × (deadline t.delay.sleep ≡ (tm.now cx₀).0 + du.duration first.delay.delay_duration)
  Waited-deadline cx₀ {first} i (armed d) =
      let due = (tm.now cx₀).0 + du.duration first.delay.delay_duration in
      (d, poll-deadline due first cx₀ (λ _. refl) (λ s. absurd (idle-ne-delayed (sym i ∙ s))) d)
  Waited-deadline cx₀ {first} i (again {t = t} before cx d) =
      let due = (tm.now cx₀).0 + du.duration first.delay.delay_duration in
      let (asleep, same) = Waited-deadline cx₀ i before in
      (d, poll-deadline due t cx (λ s. absurd (idle-ne-delayed (sym s ∙ asleep))) (λ _. same) d)

  -- A poll made the inner call; the delay is idle again.
  pub record Called (this : DelayedWriter T D Sleep) (res : Polled A (DelayedWriter T D Sleep) Cx)
      : Type 0 where
    pub sleep : Sleep
    pub context : Cx
    pub made : res ≡ forward (put_inner (in_state this idle sleep)) (f this.inner context)

  woken-Called :
      (fired : Poll (Unit {0})) (sleep : Sleep) (cx : Cx) (this : DelayedWriter T D Sleep)
      → fired ≡ ready tt
      → Called this (woken f (fired, sleep, cx) this)
  unfolding woken
  woken-Called pending sleep cx this h = absurd (pending-ne-ready h)
  woken-Called (ready tt) sleep cx this h = record { sleep = sleep; context = cx; made = refl }

  -- A write or shutdown whose first poll found the delay idle and set its sleep, polled again any
  -- number of times while the delay runs, with a timer that is prompt up to its resolution: a poll
  -- at which the clock has passed the first poll's reading by the configured duration and the
  -- resolution makes the inner call. So a task that keeps polling is not held up for longer.
  pub Waited-Called :
      {resolution : ℕ} (prompt : PromptTimer tm time deadline resolution) (cx₀ cx : Cx)
      {first t : DelayedWriter T D Sleep}
      → first.delay.state ≡ idle
      → Waited Cx f first cx₀ t
      → ((tm.now cx₀).0 + du.duration first.delay.delay_duration) + resolution ≤ time cx
      → Called t (poll_with_write_delay f t cx)
  Waited-Called prompt cx₀ cx {first} {t} i ws late =
      let (asleep, same) = Waited-deadline cx₀ i ws in
      let (fired, sleep, cx') = tm.poll_sleep t.delay.sleep cx in
      subst (Called t) (sym (poll_with_write_delay-eq-delay_then_call f t cx)) (
        subst (λ state. Called t (delay_then_call f state t cx)) (sym asleep)
          (unfold delay_then_call in
            woken-Called fired sleep cx' t
              (prompt.fires t.delay.sleep cx (omega (arith, same, late)))))

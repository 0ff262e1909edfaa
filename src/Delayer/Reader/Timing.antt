-- ===== src/Delayer/Reader/Timing.antt =====
-- tokio-netem/src/delayer.rs: when a delayed reader hands over the first bytes of a burst.
use native.Mathlib.Nat.{le_trans, le_of_eq}
use trixter.Prelude.{
  ℕ, suc, ◌+◌, ◌≤◌, ◌≡◌, refl, sym, ◌⊎◌, inl, inr, Bool, true, false, ◌==◌, ==_iff, Bool-cases,
  if◌then◌else◌, List, arith,
}
use trixter.Tokio.{
  Poll, pending, ready, Result, ok, err, panic, spin, PolledRead, ready_read, AsyncBufRead, ReadBuf,
  Timer, TimerLaws,
}
use trixter.Delayer.Knob.{Duration}
use trixter.Delayer.Delay.{State, idle, delayed, Delay, maybe_delay, wake, poll}
use trixter.Delayer.Reader.{
  DelayedReader, Round, deliver, after_armed, before, after_filled, on_action, read_loop, poll_read,
}

false-ne-true : false ≡ true → ⊥
false-ne-true h = cc

module _ {Cx Sleep T D : Type 0} ⦃du : Duration D⦄ (time : Cx → ℕ) (deadline : Sleep → ℕ) where
  -- Bytes are due by no earlier than `due`: an idle reader whose buffer was read to its end delays
  -- them by its duration, and a delayed one until its sleep ends.
  abbrev pub Due : ℕ → State → DelayedReader T D Sleep → Cx → Type 0
  Due due idle this cx =
      (this.buf_empty ≡ true) × (due ≤ time cx + du.duration this.delay.delay_duration)
  Due due delayed this cx = due ≤ deadline this.delay.sleep

  -- A read put nothing into `buf`, and the same is still due; or the clock has come to `due`.
  abbrev pub Held : {B : Type 0} → ℕ → B → PolledRead (DelayedReader T D Sleep) B Cx → Type 0
  Held due buf (res, this', buf', cx') =
      (Due due this'.delay.state this' cx' × (buf' ≡ buf)) ⊎ (due ≤ time cx')

module _ {Cx Sleep B T D : Type 0} ⦃tm : Timer Cx Sleep⦄ ⦃du : Duration D⦄ ⦃r : AsyncBufRead Cx T⦄
    ⦃rb : ReadBuf B⦄ {time : Cx → ℕ} {deadline : Sleep → ℕ} (laws : TimerLaws tm time deadline)
    (later : (t : T) (cx : Cx) → time cx ≤ time (r.poll_fill_buf t cx).2) where
  after_filled-Held :
      (due : ℕ) (res : Poll (Result (List ℕ))) (inner : T) (cx : Cx)
      (this : DelayedReader T D Sleep) (buf : B)
      → due ≤ time cx
      → Held time deadline due buf (after_filled (res, inner, cx) this buf)
  unfolding after_filled deliver
  after_filled-Held due pending inner cx this buf h = inr h
  after_filled-Held due (ready (ok rem)) inner cx this buf h = inr h
  after_filled-Held due (ready (err e)) inner cx this buf h = inr h
  after_filled-Held due (ready panic) inner cx this buf h = inr h
  after_filled-Held due (ready spin) inner cx this buf h = inr h

  woken-Held :
      (due : ℕ) (again : Round T D Sleep B Cx) (fired : Poll (Unit {0})) (sleep : Sleep) (cx : Cx)
      (inner : T) (asleep : Sleep) (d : D) (empty : Bool) (buf : B)
      → due ≤ deadline sleep
      → (fired ≡ ready tt → due ≤ time cx)
      → let delay : Delay D Sleep = record {
        state = delayed;
        sleep = asleep;
        delay_duration = d;
      } in
        Held time deadline due buf (
          on_action again
            (wake (fired, sleep, cx) delay)
            (record { inner = inner; delay = delay; buf_empty = empty })
            buf)
  unfolding on_action wake
  woken-Held due again pending sleep cx inner asleep d empty buf still over = inl (still, refl)
  woken-Held due again (ready tick) sleep cx inner asleep d empty buf still over =
      let (res, inner', cx') = r.poll_fill_buf inner cx in
      after_filled-Held due res inner' cx'
        (record {
          inner = inner;
          delay = record { state = idle; sleep = sleep; delay_duration = d };
          buf_empty = empty;
        })
        buf (le_trans (over refl) (later inner cx))

  delayed-Held :
      (due fuel : ℕ) (inner : T) (asleep : Sleep) (d : D) (empty : Bool) (buf : B) (cx : Cx)
      → due ≤ deadline asleep
      → Held time deadline due buf (
          read_loop
            (suc fuel)
            (record {
              inner = inner;
              delay = record { state = delayed; sleep = asleep; delay_duration = d };
              buf_empty = empty;
            })
            buf
            cx)
  unfolding read_loop poll
  delayed-Held due fuel inner asleep d empty buf cx h =
      let (fired, sleep, cx') = tm.poll_sleep asleep cx in
      woken-Held due (read_loop fuel) fired sleep cx' inner asleep d empty buf
        (le_trans h (le_of_eq (sym (laws.poll_deadline asleep cx))))
        (λ e. le_trans h (laws.fires_late asleep cx e))

  -- The delay is idle and the buffer was read to its end; it was filled until `cx`.
  filled-Held :
      (due : ℕ) (res : Poll (Result (List ℕ))) (inner : T) (sleep : Sleep) (d : D) (buf : B)
      (cx : Cx)
      → due ≤ time cx + du.duration d
      → let this : DelayedReader T D Sleep = record {
        inner = inner;
        delay = record { state = idle; sleep = sleep; delay_duration = d };
        buf_empty = true;
      } in
        Held time deadline due buf (
          ready_read res this buf cx (λ rem.
            if true
            then after_armed (read_loop 1) (maybe_delay this.delay cx) rem this buf cx
            else deliver rem this buf cx))
  unfolding after_armed maybe_delay deliver
  filled-Held due pending inner sleep d buf cx h = inl ((refl, h), refl)
  filled-Held due (ready (ok rem)) inner sleep d buf cx h =
      let (now, cx') = tm.now cx in
      elim (Bool-cases (du.duration d == 0)) [
        | inl none_set ↦
            let none : du.duration d ≡ 0 = (==_iff (du.duration d) 0).0 none_set in
            rw none_set (inr (omega (arith, h, none)))
        | inr some_set ↦ rw some_set (
            delayed-Held due 0 inner (tm.reset sleep (now + du.duration d)) d true buf cx' (
              omega (arith, h, laws.reset_deadline sleep (now + du.duration d), laws.now_later cx)))
      ]
  filled-Held due (ready (err e)) inner sleep d buf cx h = inl ((refl, h), refl)
  filled-Held due (ready panic) inner sleep d buf cx h = inl ((refl, h), refl)
  filled-Held due (ready spin) inner sleep d buf cx h = inl ((refl, h), refl)

  from_parts-Held :
      (due : ℕ) (state : State) (inner : T) (sleep : Sleep) (d : D) (empty : Bool) (buf : B)
      (cx : Cx)
      → let this : DelayedReader T D Sleep = record {
        inner = inner;
        delay = record { state = state; sleep = sleep; delay_duration = d };
        buf_empty = empty;
      } in
        Due time deadline due state this cx → Held time deadline due buf (read_loop 2 this buf cx)
  unfolding read_loop on_action before poll
  from_parts-Held due delayed inner sleep d empty buf cx h =
      delayed-Held due 1 inner sleep d empty buf cx h
  from_parts-Held due idle inner sleep d true buf cx h =
      let (res, inner', cx') = r.poll_fill_buf inner cx in
      filled-Held due res inner' sleep d buf cx' (omega (arith, h.1, later inner cx))
  from_parts-Held due idle inner sleep d false buf cx h = absurd (false-ne-true h.0)

  -- A read of a delayed reader that has read its inner buffer to the end, or whose delay is running,
  -- over a reader that does not turn the clock back: either it hands over nothing and the same
  -- remains due, or the clock has come to the time when bytes are due. So the first bytes of a burst
  -- come no earlier than the configured duration after the first read that waits for them, however
  -- often it is polled.
  pub poll_read-Held :
      (due : ℕ) (this : DelayedReader T D Sleep) (cx : Cx) (buf : B)
      → Due time deadline due this.delay.state this cx
      → Held time deadline due buf (poll_read this cx buf)
  unfolding poll_read
  poll_read-Held due this cx buf h =
      from_parts-Held due this.delay.state this.inner this.delay.sleep this.delay.delay_duration
        this.buf_empty buf cx h

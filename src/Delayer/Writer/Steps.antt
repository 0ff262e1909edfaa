-- ===== src/Delayer/Writer/Steps.antt =====
-- tokio-netem/src/delayer.rs: the loop of a delayed writer, as branches.
use trixter.Prelude.{◌+◌, ◌≡◌, ◌==◌, if◌then◌else◌, arith}
use trixter.Tokio.{Poll, pending, ready, Polled, Timer}
use trixter.Io.{forward}
use trixter.Delayer.Knob.{Duration}
use trixter.Delayer.Delay.{State, idle, delayed, maybe_delay, poll}
use trixter.Delayer.Writer.{DelayedWriter, put_inner, poll_with_write_delay}

abbrev pub in_state :
    {T D Sleep : Type 0} → DelayedWriter T D Sleep → State → Sleep → DelayedWriter T D Sleep
in_state this state sleep = record this {
  delay = record { state = state; sleep = sleep; delay_duration = this.delay.delay_duration };
}

module _ {Cx Sleep T D A : Type 0} ⦃tm : Timer Cx Sleep⦄ ⦃du : Duration D⦄
    (f : T → Cx → Polled A T Cx) where
  -- The sleep was polled: the call is made, and the delay is idle, once it is over.
  unfoldable pub woken :
      Poll (Unit {0}) × Sleep × Cx → DelayedWriter T D Sleep → Polled A (DelayedWriter T D Sleep) Cx
  woken (pending, sleep, cx) this = (pending, in_state this delayed sleep, cx)
  woken (ready _, sleep, cx) this = forward (put_inner (in_state this idle sleep)) (f this.inner cx)

  -- `poll_with_write_delay` with no loop, by the state that it finds.
  unfoldable pub delay_then_call :
      State → DelayedWriter T D Sleep → Cx → Polled A (DelayedWriter T D Sleep) Cx
  delay_then_call idle this cx =
      let duration = du.duration this.delay.delay_duration in
      let (now, cx') = tm.now cx in
      if duration == 0
      then forward (put_inner this) (f this.inner cx)
      else woken (tm.poll_sleep (tm.reset this.delay.sleep (now + duration)) cx') this
  delay_then_call delayed this cx = woken (tm.poll_sleep this.delay.sleep cx) this

  from_parts :
      (state : State) (inner : T) (sleep : Sleep) (d : D) (cx : Cx)
      → let this : DelayedWriter T D Sleep = record {
        inner = inner;
        delay = record { state = state; sleep = sleep; delay_duration = d };
      } in
        poll_with_write_delay f this cx ≡ delay_then_call state this cx
  unfolding poll_with_write_delay poll maybe_delay delay_then_call woken
  from_parts delayed inner sleep d cx = ground arith
  from_parts idle inner sleep d cx = ground arith

  -- The loop does what the branches do: with no delay the call is made at once; else the sleep is
  -- set from the clock, or an earlier one goes on, and the call is made exactly if it is over.
  pub poll_with_write_delay-eq-delay_then_call :
      (this : DelayedWriter T D Sleep) (cx : Cx)
      → poll_with_write_delay f this cx ≡ delay_then_call this.delay.state this cx
  poll_with_write_delay-eq-delay_then_call this cx =
      from_parts this.delay.state this.inner this.delay.sleep this.delay.delay_duration cx

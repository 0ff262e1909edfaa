-- ===== src/Delayer/Delay.antt =====
-- tokio-netem/src/delayer.rs: `Delay`, the state machine of one sleep.
use trixter.Prelude.{◌≢◌, ◌+◌, Bool, true, false, ◌==◌, if◌then◌else◌}
use trixter.Tokio.{Poll, pending, ready, Timer}
use trixter.Delayer.Knob.{Duration}

pub data Action : Type 0 where
  before_delay after_delay : Action

pub data State : Type 0 where
  idle delayed : State

pub idle-ne-delayed : idle ≢ delayed
idle-ne-delayed h = cc

pub record Delay (D Sleep : Type 0) : Type 0 where
  pub state : State
  pub sleep : Sleep
  pub delay_duration : D

-- `maybe_delay` either panics, or says whether the timer is armed.
pub data Armed (D Sleep Cx : Type 0) : Type 0 where
  unreachable : Armed D Sleep Cx
  armed : Bool → Delay D Sleep → Cx → Armed D Sleep Cx

module _ {Cx D Sleep : Type 0} ⦃tm : Timer Cx Sleep⦄ where
  unfoldable pub new_delay : D → Cx → Delay D Sleep
  new_delay delay_duration cx = record {
    state = idle;
    sleep = tm.sleep 0 cx;
    delay_duration = delay_duration;
  }

module _ {Cx D Sleep : Type 0} ⦃tm : Timer Cx Sleep⦄ ⦃du : Duration D⦄ where
  arm : Delay D Sleep → Cx → Armed D Sleep Cx
  arm this cx =
      let duration = du.duration this.delay_duration in
      let (now, cx') = tm.now cx in
      if duration == 0
      then armed false this cx
      else armed true
          (record this { state = delayed; sleep = tm.reset this.sleep (now + duration) }) cx'

  maybe_delay_in : State → Delay D Sleep → Cx → Armed D Sleep Cx
  unfolding arm
  maybe_delay_in idle this cx = arm this cx
  maybe_delay_in delayed this cx = unreachable

  unfoldable pub maybe_delay : Delay D Sleep → Cx → Armed D Sleep Cx
  unfolding maybe_delay_in
  maybe_delay this cx = maybe_delay_in this.state this cx

  unfoldable pub wake :
      Poll (Unit {0}) × Sleep × Cx → Delay D Sleep → Poll Action × Delay D Sleep × Cx
  wake (pending, sleep, cx) this = (pending, record this { sleep = sleep }, cx)
  wake (ready _, sleep, cx) this =
      (ready after_delay, record this { sleep = sleep; state = idle }, cx)

  poll_in : State → Delay D Sleep → Cx → Poll Action × Delay D Sleep × Cx
  unfolding wake
  poll_in idle this cx = (ready before_delay, this, cx)
  poll_in delayed this cx = wake (tm.poll_sleep this.sleep cx) this

  unfoldable pub poll : Delay D Sleep → Cx → Poll Action × Delay D Sleep × Cx
  unfolding poll_in
  poll this cx = poll_in this.state this cx

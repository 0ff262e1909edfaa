-- ===== src/Delayer/Reader/Hazards.antt =====
-- tokio-netem/src/delayer.rs: an `unreachable!` of a delayed reader is reached at the end of a stream.
use trixter.Prelude.{◌+◌, ◌<◌, ◌≡◌, refl, true, false, ◌==◌, [], arith}
use trixter.Tokio.{pending, ready, ok, panic, AsyncBufRead, ReadBuf, Timer}
use trixter.Delayer.Knob.{Duration}
use trixter.Delayer.Delay.{idle, delayed, maybe_delay, wake, poll}
use trixter.Delayer.Reader.{
  DelayedReader, after_armed, before, after_filled, on_action, read_loop, poll_read,
}

abbrev pub at_rest : {T Sleep D : Type 0} → T → Sleep → D → DelayedReader T D Sleep
at_rest inner sleep d = record {
  inner = inner;
  delay = record { state = idle; sleep = sleep; delay_duration = d };
  buf_empty = true;
}

abbrev asleep : {T Sleep D : Type 0} → T → Sleep → D → DelayedReader T D Sleep
asleep inner sleep d = record {
  inner = inner;
  delay = record { state = delayed; sleep = sleep; delay_duration = d };
  buf_empty = true;
}

module _ {Cx Sleep B T D : Type 0} ⦃tm : Timer Cx Sleep⦄ ⦃du : Duration D⦄ ⦃r : AsyncBufRead Cx T⦄
    ⦃rb : ReadBuf B⦄ where
  armed_at_end :
      (inner inner' : T) (sleep sleep' : Sleep) (d : D) (cx cx' cx'' : Cx) (buf : B)
      → 0 < du.duration d
      → r.poll_fill_buf inner cx ≡ (ready (ok []), inner', cx')
      → tm.poll_sleep (tm.reset sleep ((tm.now cx').0 + du.duration d)) (tm.now cx').1
        ≡ (pending, sleep', cx'')
      → poll_read (at_rest inner sleep d) cx buf ≡ (pending, asleep inner' sleep' d, buf, cx'')
  unfolding poll_read read_loop on_action before after_armed maybe_delay poll wake
  armed_at_end inner inner' sleep sleep' d cx cx' cx'' buf long ends waits =
      let nz : (du.duration d == 0) ≡ false = ground arith in rw (ends, nz, waits) refl

  panics_when_woken :
      (inner : T) (sleep sleep' : Sleep) (d : D) (cx cx' : Cx) (buf : B)
      → tm.poll_sleep sleep cx ≡ (ready tt, sleep', cx')
      → (r.poll_fill_buf inner cx').0 ≡ pending
      → (poll_read (asleep inner sleep d) cx buf).0 ≡ ready panic
  unfolding poll_read read_loop on_action after_filled poll wake
  panics_when_woken inner sleep sleep' d cx cx' buf woken stuck = rw woken (ground arith)

  -- The end of the stream arms the delay as a burst of bytes does. A read of an idle delayed reader
  -- that has read its buffer to the end, with a delay that is not 0, finds the end of the inner
  -- stream, and waits. If its sleep is over at the next read, and the inner filling is pending there,
  -- as it may be at the end of a stream, that read panics.
  pub poll_read-panics_at_end :
      (inner inner' : T) (sleep sleep' sleep'' : Sleep) (d : D) (cx cx' cx'' later later' : Cx)
      (buf buf' : B)
      → 0 < du.duration d
      → r.poll_fill_buf inner cx ≡ (ready (ok []), inner', cx')
      → tm.poll_sleep (tm.reset sleep ((tm.now cx').0 + du.duration d)) (tm.now cx').1
        ≡ (pending, sleep', cx'')
      → tm.poll_sleep sleep' later ≡ (ready tt, sleep'', later')
      → (r.poll_fill_buf inner' later').0 ≡ pending
      → ((poll_read (at_rest inner sleep d) cx buf).0 ≡ pending)
        × ((poll_read (poll_read (at_rest inner sleep d) cx buf).1 later buf').0 ≡ ready panic)
  poll_read-panics_at_end inner inner' sleep sleep' sleep'' d cx cx' cx'' later later' buf buf' long
        ends waits woken stuck =
      rw (armed_at_end inner inner' sleep sleep' d cx cx' cx'' buf long ends waits)
        (refl, panics_when_woken inner' sleep' sleep'' d later later' buf' woken stuck)

-- ===== src/Delayer/Reader/Full.antt =====
-- tokio-netem/src/delayer.rs: the `unreachable!`s of a delayed reader are not reached.
use trixter.Prelude.{
  ℕ, suc, ◌+◌, ◌≡◌, ◌≢◌, refl, sym, ◌⊎◌, inl, inr, Bool, true, false, ◌==◌, Bool-cases,
  if◌then◌else◌, List, [], ◌∷◌,
}
use trixter.Tokio.{
  Poll, pending, ready, Result, ok, err, panic, spin, PolledRead, ready_read, AsyncBufRead, ReadBuf,
  Timer,
}
use trixter.Delayer.Knob.{Duration}
use trixter.Delayer.Delay.{State, idle, delayed, idle-ne-delayed, Delay, maybe_delay, wake, poll}
use trixter.Delayer.Reader.{
  DelayedReader, Round, deliver, after_armed, before, after_filled, on_action, read_loop, poll_read,
}

-- A filling neither panics nor runs on for ever, and one that shows a byte leaves a full reader.
abbrev pub Fulfilled : {T : Type 0} → (T → Type 0) → Poll (Result (List ℕ)) → T → Type 0
Fulfilled Full (ready (ok [])) t = Unit {0}
Fulfilled Full (ready (ok (x ∷ rem))) t = Full t
Fulfilled Full (ready (err e)) t = Unit {0}
Fulfilled Full (ready panic) t = ⊥
Fulfilled Full (ready spin) t = ⊥
Fulfilled Full pending t = Unit {0}

-- A buffer that is not empty is shown again without waiting.
pub record FullLaws {Cx T : Type 0} (r : AsyncBufRead Cx T) (Full : T → Type 0) : Type 0 where
  pub fulfilled :
      (t : T) (cx : Cx) → Fulfilled Full (r.poll_fill_buf t cx).0 (r.poll_fill_buf t cx).1
  pub full_ready : (t : T) (cx : Cx) → Full t → (r.poll_fill_buf t cx).0 ≢ pending

abbrev pub Orderly : {A : Type 0} → Poll (Result A) → Type 0
Orderly (ready panic) = ⊥
Orderly (ready spin) = ⊥
Orderly (ready (ok a)) = Unit {0}
Orderly (ready (err e)) = Unit {0}
Orderly pending = Unit {0}

module _ {T : Type 0} (Full : T → Type 0) where
  -- The delay is idle, or the inner buffer is full.
  abbrev pub Guarded : {D Sleep : Type 0} → DelayedReader T D Sleep → Type 0
  Guarded this = (this.delay.state ≡ idle) ⊎ Full this.inner

  -- A read ended without a panic, and left the reader so.
  abbrev pub Safe : {D Sleep B Cx : Type 0} → PolledRead (DelayedReader T D Sleep) B Cx → Type 0
  Safe (res, this', buf', cx') = Orderly res × Guarded this'

module _ {Cx Sleep B T D : Type 0} ⦃tm : Timer Cx Sleep⦄ ⦃du : Duration D⦄ ⦃r : AsyncBufRead Cx T⦄
    ⦃rb : ReadBuf B⦄ {Full : T → Type 0} (laws : FullLaws r Full) where
  after_filled-Safe :
      (res : Poll (Result (List ℕ))) (inner : T) (cx : Cx) (this : DelayedReader T D Sleep)
      (buf : B)
      → this.delay.state ≡ idle
      → res ≢ pending
      → Fulfilled Full res inner
      → Safe Full (after_filled (res, inner, cx) this buf)
  unfolding after_filled deliver
  after_filled-Safe pending inner cx this buf i np f = absurd (np refl)
  after_filled-Safe (ready (ok rem)) inner cx this buf i np f = (tt, inl i)
  after_filled-Safe (ready (err e)) inner cx this buf i np f = (tt, inl i)
  after_filled-Safe (ready panic) inner cx this buf i np f = absurd f
  after_filled-Safe (ready spin) inner cx this buf i np f = absurd f

  -- A round that finds the delay running, by what its sleep says.
  woken-Safe :
      (again : Round T D Sleep B Cx) (fired : Poll (Unit {0})) (sleep : Sleep) (cx : Cx) (inner : T)
      (asleep : Sleep) (d : D) (empty : Bool) (buf : B)
      → Full inner
      → let delay : Delay D Sleep = record {
        state = delayed;
        sleep = asleep;
        delay_duration = d;
      } in
        Safe Full (
          on_action again
            (wake (fired, sleep, cx) delay)
            (record { inner = inner; delay = delay; buf_empty = empty })
            buf)
  unfolding on_action wake
  woken-Safe again pending sleep cx inner asleep d empty buf full = (tt, inr full)
  woken-Safe again (ready over) sleep cx inner asleep d empty buf full =
      let (res, inner', cx') = r.poll_fill_buf inner cx in
      after_filled-Safe res inner' cx'
        (record {
          inner = inner;
          delay = record { state = idle; sleep = sleep; delay_duration = d };
          buf_empty = empty;
        })
        buf refl (laws.full_ready inner cx full) (laws.fulfilled inner cx)

  delayed-Safe :
      (fuel : ℕ) (inner : T) (asleep : Sleep) (d : D) (empty : Bool) (buf : B) (cx : Cx)
      → Full inner
      → Safe Full (
          read_loop
            (suc fuel)
            (record {
              inner = inner;
              delay = record { state = delayed; sleep = asleep; delay_duration = d };
              buf_empty = empty;
            })
            buf
            cx)
  unfolding read_loop poll
  delayed-Safe fuel inner asleep d empty buf cx full =
      let (fired, sleep, cx') = tm.poll_sleep asleep cx in
      woken-Safe (read_loop fuel) fired sleep cx' inner asleep d empty buf full

  -- The delay is idle, and the inner buffer was filled.
  filled-Safe :
      (res : Poll (Result (List ℕ))) (inner : T) (sleep : Sleep) (d : D) (empty : Bool) (buf : B)
      (cx : Cx)
      → Fulfilled Full res inner
      → res ≢ ready (ok [])
      → let this : DelayedReader T D Sleep = record {
        inner = inner;
        delay = record { state = idle; sleep = sleep; delay_duration = d };
        buf_empty = empty;
      } in
        Safe Full (
          ready_read res this buf cx (λ rem.
            if empty
            then after_armed (read_loop 1) (maybe_delay this.delay cx) rem this buf cx
            else deliver rem this buf cx))
  unfolding after_armed maybe_delay deliver
  filled-Safe pending inner sleep d empty buf cx f ne = (tt, inl refl)
  filled-Safe (ready (ok [])) inner sleep d empty buf cx f ne = absurd (ne refl)
  filled-Safe (ready (ok (x ∷ rem))) inner sleep d false buf cx f ne = (tt, inl refl)
  filled-Safe (ready (ok (x ∷ rem))) inner sleep d true buf cx f ne =
      let (now, cx') = tm.now cx in
      elim (Bool-cases (du.duration d == 0)) [
        | inl none_set ↦ rw none_set (tt, inl refl)
        | inr some_set ↦
            rw some_set
              (delayed-Safe 0 inner (tm.reset sleep (now + du.duration d)) d true buf cx' f)
      ]
  filled-Safe (ready (err e)) inner sleep d empty buf cx f ne = (tt, inl refl)
  filled-Safe (ready panic) inner sleep d empty buf cx f ne = absurd f
  filled-Safe (ready spin) inner sleep d empty buf cx f ne = absurd f

  from_parts-Safe :
      (state : State) (inner : T) (sleep : Sleep) (d : D) (empty : Bool) (buf : B) (cx : Cx)
      → (state ≡ idle) ⊎ Full inner
      → (state ≡ idle → (r.poll_fill_buf inner cx).0 ≢ ready (ok []))
      → Safe Full (
          read_loop 2
            (record {
              inner = inner;
              delay = record { state = state; sleep = sleep; delay_duration = d };
              buf_empty = empty;
            })
            buf
            cx)
  unfolding read_loop on_action before poll
  from_parts-Safe delayed inner sleep d empty buf cx g goes_on = elim g [
    | inl i ↦ absurd (idle-ne-delayed (sym i))
    | inr full ↦ delayed-Safe 1 inner sleep d empty buf cx full
  ]
  from_parts-Safe idle inner sleep d empty buf cx g goes_on =
      let (res, inner', cx') = r.poll_fill_buf inner cx in
      filled-Safe res inner' sleep d empty buf cx' (laws.fulfilled inner cx) (goes_on refl)

  -- A read of a delayed reader whose delay is idle or whose inner buffer is full, over a buffered
  -- reader that shows a buffer again without waiting while it is not empty, and whose fillings end
  -- without a panic; if the delay is idle, the filling does not come to the end of the stream. It
  -- ends, in two rounds at most, without a panic, so neither `unreachable!` is reached, and again the
  -- delay is idle or the inner buffer is full. A new reader is idle.
  pub poll_read-Safe :
      (this : DelayedReader T D Sleep) (cx : Cx) (buf : B)
      → Guarded Full this
      → (this.delay.state ≡ idle → (r.poll_fill_buf this.inner cx).0 ≢ ready (ok []))
      → Safe Full (poll_read this cx buf)
  unfolding poll_read
  poll_read-Safe this cx buf g goes_on =
      from_parts-Safe this.delay.state this.inner this.delay.sleep this.delay.delay_duration
        this.buf_empty buf cx g goes_on

-- ===== src/Delayer/Writer/Contract.antt =====
-- tokio-netem/src/delayer.rs: a delayed writer keeps the promises of a writer.
use trixter.Prelude.{ℕ, ◌+◌, refl, sym, subst, inl, inr, List, concat, ◌==◌, Bool-cases}
use trixter.Tokio.{
  Poll, pending, ready, Result, Polled, AsyncWrite, Timer, WriteContract, Accepts, Keeps,
}
use trixter.Delayer.Knob.{Duration}
use trixter.Delayer.Delay.{State, idle, delayed}
use trixter.Delayer.Writer.{DelayedWriter, poll_with_write_delay, delayed_write}
use trixter.Delayer.Writer.Steps.{woken, delay_then_call, poll_with_write_delay-eq-delay_then_call}

-- A promise `ok` on what a call makes of the inner object, which a pending call keeps by doing nothing.
module _ {Cx Sleep T D A : Type 0} ⦃tm : Timer Cx Sleep⦄ ⦃du : Duration D⦄
    (f : T → Cx → Polled A T Cx) (ok : Poll (Result A) → T → T → Type 0)
    (idles : (t : T) → ok pending t t)
    (calls : (t : T) (cx : Cx) → ok (f t cx).0 t (f t cx).1) where
  woken-keeps :
      (fired : Poll (Unit {0})) (sleep : Sleep) (cx : Cx) (this : DelayedWriter T D Sleep)
      → let (r, this', cx') = woken f (fired, sleep, cx) this in ok r this.inner this'.inner
  unfolding woken
  woken-keeps pending sleep cx this = idles this.inner
  woken-keeps (ready u) sleep cx this = calls this.inner cx

  delay_then_call-keeps :
      (state : State) (this : DelayedWriter T D Sleep) (cx : Cx)
      → let (r, this', cx') = delay_then_call f state this cx in ok r this.inner this'.inner
  unfolding delay_then_call
  delay_then_call-keeps idle this cx =
      let (now, cx₁) = tm.now cx in
      let (fired, sleep, cx₂) =
        tm.poll_sleep (tm.reset this.delay.sleep (now + du.duration this.delay.delay_duration))
          cx₁ in
      elim (Bool-cases (du.duration this.delay.delay_duration == 0)) [
        | inl z ↦ rw z (calls this.inner cx)
        | inr nz ↦ rw nz (woken-keeps fired sleep cx₂ this)
      ]
  delay_then_call-keeps delayed this cx =
      let (fired, sleep, cx') = tm.poll_sleep this.delay.sleep cx in
      woken-keeps fired sleep cx' this

  pub poll_with_write_delay-keeps :
      (this : DelayedWriter T D Sleep) (cx : Cx)
      → let (r, this', cx') = poll_with_write_delay f this cx in ok r this.inner this'.inner
  poll_with_write_delay-keeps this cx =
      subst (λ (res : Polled A (DelayedWriter T D Sleep) Cx). ok res.0 this.inner res.1.inner)
        (sym (poll_with_write_delay-eq-delay_then_call f this cx))
        (delay_then_call-keeps this.delay.state this cx)

module _ {Cx Sleep T D : Type 0} ⦃tm : Timer Cx Sleep⦄ ⦃du : Duration D⦄ ⦃w : AsyncWrite Cx T⦄
    (sent : T → List ℕ) where
  -- Over an inner writer that keeps the contract of `AsyncWrite` for the bytes that it has sent, a
  -- delayed writer keeps it for the same bytes, with every duration and in every state.
  pub delayed_write-WriteContract :
      WriteContract w sent
      → WriteContract
          (delayed_write {Cx = Cx} {Sleep = Sleep} {T = T} {D = D})
          (λ this. sent this.inner)
  delayed_write-WriteContract c = record {
    write_law = λ this cx buf.
        poll_with_write_delay-keeps (λ inner cx'. w.poll_write inner cx' buf)
          (λ r old new. Accepts r buf (sent old) (sent new)) (λ t. refl)
          (λ t cx'. c.write_law t cx' buf) this cx;
    flush_law = λ this cx. c.flush_law this.inner cx;
    shutdown_law = λ this cx.
        poll_with_write_delay-keeps w.poll_shutdown (λ r old new. Keeps r (sent old) (sent new))
          (λ t. refl) c.shutdown_law this cx;
    vectored_law = λ this cx bufs.
        poll_with_write_delay-keeps (λ inner cx'. w.poll_write_vectored inner cx' bufs)
          (λ r old new. Accepts r (concat bufs) (sent old) (sent new)) (λ t. refl)
          (λ t cx'. c.vectored_law t cx' bufs) this cx;
  }

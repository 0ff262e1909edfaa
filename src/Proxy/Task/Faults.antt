-- ===== src/Proxy/Task/Faults.antt =====
-- trixter/src/main.rs: the adapters of a connection together.
use trixter.Prelude.{ℕ, ◌≡◌, refl, inl, inr, true, Bool-cases, List, [], ◌∷◌, Option, none, some}
use trixter.Tokio.{ready, err, Polled, AsyncWrite, Timer}
use trixter.Io.{forward}
use trixter.Probability.{Probability, dynamic_threshold, try_trigger}
use trixter.Corrupter.{
  Corrupter, corrupter_write, should_corrupt, random_data, write_queued, write_from,
}
use trixter.Corrupter
use trixter.Terminator.{Terminator, terminated, terminator_write, unless_triggered}
use trixter.Terminator.Latched.{latched}
use trixter.Drain.{drain, returned}
use trixter.Slicer.{sliced_write}
use trixter.Tokio.{Rng}
use trixter.Throttler.Writer.{throttled_write}
use trixter.Throttler.Writer as RateWriter
use trixter.Delayer.Writer.{delayed_write}
use trixter.Delayer.Writer as DelayWriter
use trixter.Delayer.Delay
use trixter.Throttler.Bucket
use trixter.Delayer.{dynamic_duration}
use trixter.Throttler.{dynamic_rate}
use trixter.Slicer.{dynamic_size}
use trixter.Proxy.Stack.{shape}
use trixter.Proxy.Task.{Knobs, Faulty, Seedable, faulty}

-- Every knob is 0; a rate of probability 0 may have the bits of either zero.
abbrev pub off : ℕ → ℕ → Knobs
off terminate_bits corrupt_bits = record {
  delay = record { cell = 0 };
  throttle_rate = record { size = 0 };
  slice_size = record { cell = 0 };
  terminate_probability_rate = record {
    probability_rate_bits = terminate_bits;
    probability_threshold = 0;
  };
  corrupt_probability_rate = record {
    probability_rate_bits = corrupt_bits;
    probability_threshold = 0;
  };
}

module _ {Cx T G : Type 0} (Sleep : Type 0) ⦃tm : Timer Cx Sleep⦄ ⦃w : AsyncWrite Cx T⦄
    ⦃sg : Seedable G⦄ ⦃rn : Rng G⦄ (base_rng : G) (bits bits' : ℕ) (cx₀ : Cx) where
  -- The adapters over a socket when every knob is off.
  abbrev idle : T → Faulty T Sleep G
  idle socket = (faulty socket (off bits bits') base_rng cx₀).0

  -- With every knob at 0 the adapters that the proxy puts over a socket do nothing: a write, a
  -- vectored write, a flush and a shutdown of the whole stack give exactly the result and the
  -- context of the socket's own, and leave the stack as it was made, over the socket as its own call
  -- leaves it. The random generator is not advanced.
  pub idle-transparent :
      (socket : T) (cx : Cx) (buf : List ℕ) (bufs : List (List ℕ))
      → (corrupter_write.poll_write (idle socket) cx buf
          ≡ forward idle (w.poll_write socket cx buf))
        × (corrupter_write.poll_write_vectored (idle socket) cx bufs
            ≡ forward idle (w.poll_write_vectored socket cx bufs))
        × (corrupter_write.poll_flush (idle socket) cx ≡ forward idle (w.poll_flush socket cx))
        × (corrupter_write.poll_shutdown (idle socket) cx
            ≡ forward idle (w.poll_shutdown socket cx))
  unfolding faulty shape Corrupter.poll_write sliced_write throttled_write RateWriter.poll_write
      RateWriter.poll_write_vectored RateWriter.poll_flush RateWriter.poll_shutdown
      RateWriter.new_writer DelayWriter.new_writer DelayWriter.poll_with_write_delay Delay.poll
      Delay.maybe_delay unless_triggered try_trigger should_corrupt Bucket.new_bucket
  idle-transparent socket cx buf bufs = (refl, refl, refl, refl)

module _ {Cx T P G : Type 0} ⦃pr : Probability P⦄ ⦃rn : Rng G⦄ ⦃w : AsyncWrite Cx T⦄ where
  drain-terminated :
      (t : Terminator T P G) (cx : Cx) (byte : ℕ) (noise : List ℕ)
      → t.triggered ≡ true
      → drain t cx (byte ∷ noise) ≡ returned (ready (err terminated)) t (byte ∷ noise) cx
  unfolding drain
  drain-terminated t cx byte noise h =
      rw (latched (λ inner cx'. w.poll_write inner cx' (byte ∷ noise)) t cx h) refl

-- An operation of a corrupter over a terminator failed with the termination error, left the socket
-- as it was, and left the terminator triggered.
abbrev pub Terminated :
    {T P P' G G' A Cx : Type 0} → T → Polled A (Corrupter (Terminator T P G) P' G') Cx → Type 0
Terminated socket (r, this', cx') =
    (r ≡ ready (err terminated)) × (this'.inner.inner ≡ socket) × (this'.inner.triggered ≡ true)

module _ {Cx T P P' G G' : Type 0} ⦃pr : Probability P⦄ ⦃pr' : Probability P'⦄ ⦃rn : Rng G⦄
    ⦃rn' : Rng G'⦄ where
  forward-Terminated :
      {A : Type 0} (f : T → Cx → Polled A T Cx) (this : Corrupter (Terminator T P G) P' G')
      (cx : Cx)
      → this.inner.triggered ≡ true
      → Terminated this.inner.inner
          (forward (Corrupter.put_inner this) (unless_triggered f this.inner cx))
  forward-Terminated f this cx h = rw (latched f this.inner cx h) (refl, refl, h)

  module _ ⦃w : AsyncWrite Cx T⦄ where
    write_queued-Terminated :
        (noise : List ℕ) (this : Corrupter (Terminator T P G) P' G') (cx : Cx) (buf : List ℕ)
        → this.inner.triggered ≡ true
        → Terminated this.inner.inner (write_queued noise this cx buf)
    unfolding write_queued drain
    write_queued-Terminated [] this cx buf h =
        forward-Terminated (λ inner cx'. w.poll_write inner cx' buf)
          (record this { write_buffer = none }) cx h
    write_queued-Terminated (byte ∷ noise) this cx buf h =
        rw (drain-terminated this.inner cx byte noise h) (refl, refl, h)

    write_from-Terminated :
        (found : Option (List ℕ)) (this : Corrupter (Terminator T P G) P' G') (cx : Cx)
        (buf : List ℕ)
        → this.inner.triggered ≡ true
        → Terminated this.inner.inner (write_from found this cx buf)
    unfolding write_from
    write_from-Terminated (some noise) this cx buf h = write_queued-Terminated noise this cx buf h
    write_from-Terminated none this cx buf h =
        let (corrupt, rng) = should_corrupt this.rng this.prob in
        let (noise, rng') = random_data rng in
        elim (Bool-cases corrupt) [
          | inl hit ↦ rw hit (
              write_queued-Terminated noise (record this { rng = rng'; write_buffer = some noise })
                cx buf h)
          | inr miss ↦ rw miss (
              forward-Terminated (λ inner cx'. w.poll_write inner cx' buf)
                (record this { rng = rng }) cx h)
        ]

    -- Once the terminator of a connection has triggered, every write, vectored write, flush and
    -- shutdown through the corrupter above it fails with the termination error, whether or not the
    -- corrupter has noise queued or makes some, nothing comes to the socket, and the terminator stays
    -- triggered.
    pub writes-Terminated :
        (this : Corrupter (Terminator T P G) P' G') (cx : Cx) (buf : List ℕ) (bufs : List (List ℕ))
        → this.inner.triggered ≡ true
        → Terminated this.inner.inner (corrupter_write.poll_write this cx buf)
          × Terminated this.inner.inner (corrupter_write.poll_write_vectored this cx bufs)
          × Terminated this.inner.inner (corrupter_write.poll_flush this cx)
          × Terminated this.inner.inner (corrupter_write.poll_shutdown this cx)
    unfolding Corrupter.poll_write
    writes-Terminated this cx buf bufs h = (
      write_from-Terminated this.write_buffer this cx buf h,
      forward-Terminated (λ inner cx'. w.poll_write_vectored inner cx' bufs) this cx h,
      forward-Terminated w.poll_flush this cx h,
      forward-Terminated w.poll_shutdown this cx h,
    )

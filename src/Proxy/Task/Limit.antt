-- ===== src/Proxy/Task/Limit.antt =====
-- trixter/src/main.rs: the limit of the rate through all the adapters of a connection.
mod Tests
use trixter.Prelude.{ℕ, ◌+◌, ◌-◌, ◌*◌, ◌≤◌, ◌<◌, ◌≡◌, refl, sym, List, length, arith}
use trixter.Tokio.{AsyncWrite, AsyncRead, ReadBuf, Timer, Rng, Receiver, WriteContract}
use trixter.Tokio.Calls.{Preserves, ReadPreserves, Uses, Uses-Preserves}
use trixter.Probability.{DynamicProbability, dynamic_threshold}
use trixter.Corrupter.{corrupter_write, corrupter_read}
use trixter.Corrupter.Passes.{corrupter_write-Preserves, corrupter_read-Preserves}
use trixter.Terminator.{Terminator, terminator_write, terminator_read}
use trixter.Terminator.Passes.{terminator_write-Preserves, terminator_read-Preserves}
use trixter.Shutdowner.{shutdowner_write, shutdowner_read}
use trixter.Shutdowner as Shutdowner
use trixter.Shutdowner.Passes.{shutdowner_write-Preserves, shutdowner_read-Preserves}
use trixter.Slicer.{sliced_write, sliced_read, dynamic_size}
use trixter.Slicer.Passes.{sliced_write-Preserves, sliced_read-Preserves}
use trixter.Delayer.{DynamicDuration, dynamic_duration}
use trixter.Delayer.Writer.{DelayedWriter, delayed_write, delayed_writer_read}
use trixter.Delayer.Writer.Contract.{delayed_write-WriteContract}
use trixter.Throttler.{DynamicRate, dynamic_rate, dynamic_steady}
use trixter.Throttler.Bucket.{nanos_per_sec}
use trixter.Throttler.Writer.{ThrottledWriter, throttled_write, throttled_writer_read}
use trixter.Throttler.Writer.Budget.{OnBudget}
use trixter.Throttler.Writer.Limit.{throttled_write-Preserves, throttled_writer_read-Preserves}
use trixter.Throttler.Writer.Changes.{opened, OnBudget-closed}
use trixter.Proxy.Stack.{Shaped}
use trixter.Proxy.Task.{Knobs, Faulty, Downstream}

module _ {T Sleep G : Type 0} where
  abbrev pub throttler :
      Faulty T Sleep G → ThrottledWriter (DelayedWriter T DynamicDuration Sleep) DynamicRate Sleep
  throttler this = this.inner.inner.inner

  -- The adapters with other values in the knobs that they share with the connection's entry.
  abbrev pub set_knobs : Faulty T Sleep G → Knobs → Faulty T Sleep G
  set_knobs this k =
      let sliced = this.inner.inner in
      let throttled = sliced.inner in
      let delayed = throttled.inner in
      record this {
        prob = k.corrupt_probability_rate;
        inner = record this.inner {
          prob = k.terminate_probability_rate;
          inner = record sliced {
            size = k.slice_size;
            inner = record throttled {
              inner = record delayed { delay = record delayed.delay { delay_duration = k.delay } };
              lb = record throttled.lb { rate = k.throttle_rate };
            };
          };
        };
      }

-- A stream `W` over the adapters, and how they are put back into it.
module _ (Cx B : Type 0) {T Sleep G W : Type 0} ⦃w : AsyncWrite Cx W⦄ ⦃r : AsyncRead Cx B W⦄
    (faults : W → Faulty T Sleep G) (put : W → Faulty T Sleep G → W) where
  -- What becomes of a stream while it is read, written, flushed and shut down in any order and the
  -- API sets all the knobs in between, the rate to any that is not 0. The number is the allowance,
  -- in bytes times a second: what the bucket had at first, and each rate times the advance of the
  -- bucket's clock while it held.
  pub data Life (first : W) : W → ℕ → Type 0 where
    begun : Life first first ((throttler (faults first)).lb.budget * nanos_per_sec)
    use_with :
        {t t' : W} {allowance : ℕ}
        → Life first t allowance
        → (k : Knobs) → 0 < k.throttle_rate.size
        → Uses Cx B (put t (set_knobs (faults t) k)) t'
        → Life first t' (
            allowance
            + k.throttle_rate.size
              * ((throttler (faults t')).lb.last_update - (throttler (faults t)).lb.last_update))

-- The throttler's account, with what has come to the socket.
abbrev FaultyOnBudget : {T Sleep G : Type 0} → (T → List ℕ) → ℕ → ℕ → ℕ → Faulty T Sleep G → Type 0
FaultyOnBudget sent start since rate this =
    OnBudget (λ delayed. sent delayed.inner) start since rate (throttler this)

module _ {Cx T Sleep G : Type 0} ⦃tm : Timer Cx Sleep⦄ ⦃rn : Rng G⦄ ⦃w : AsyncWrite Cx T⦄
    {sent : T → List ℕ} (start since rate : ℕ) where
  faulty_write-Preserves :
      WriteContract w sent
      → 0 < rate
      → Preserves
          (corrupter_write {Cx = Cx} {T = Terminator (Shaped T Sleep) DynamicProbability G}
            {P = DynamicProbability} {G = G})
          (FaultyOnBudget sent start since rate)
  faulty_write-Preserves c pos = corrupter_write-Preserves (
      terminator_write-Preserves (
        sliced_write-Preserves (
          throttled_write-Preserves dynamic_steady (λ delayed. sent delayed.inner) start since rate
            (delayed_write-WriteContract sent c) pos)))

  module _ {B : Type 0} ⦃rb : ReadBuf B⦄ ⦃r : AsyncRead Cx B T⦄ where
    faulty_read-Preserves :
        ((t : T) (cx : Cx) (buf : B) → sent (r.poll_read t cx buf).1 ≡ sent t)
        → ReadPreserves
            (corrupter_read {Cx = Cx} {T = Terminator (Shaped T Sleep) DynamicProbability G}
              {P = DynamicProbability} {G = G} {B = B})
            (FaultyOnBudget sent start since rate)
    faulty_read-Preserves silent = corrupter_read-Preserves (
        terminator_read-Preserves (
          sliced_read-Preserves (
            throttled_writer_read-Preserves (λ delayed. sent delayed.inner) start since rate
              (λ delayed cx buf. silent delayed.inner cx buf))))

module _ {Cx B T Sleep G W : Type 0} ⦃w : AsyncWrite Cx W⦄ ⦃r : AsyncRead Cx B W⦄
    (sent : T → List ℕ) (faults : W → Faulty T Sleep G) (put : W → Faulty T Sleep G → W)
    (same : (t : W) (f : Faulty T Sleep G) → faults (put t f) ≡ f)
    (keeps : (start since rate : ℕ)
      → 0 < rate
      → Preserves w (λ t. FaultyOnBudget sent start since rate (faults t)))
    (read_keeps : (start since rate : ℕ)
      → ReadPreserves r (λ t. FaultyOnBudget sent start since rate (faults t))) where
  Life-within_rates :
      {first this : W} {allowance : ℕ}
      → Life Cx B faults put first this allowance
      → (length (sent (throttler (faults this)).inner.inner) + (throttler (faults this)).lb.budget)
          * nanos_per_sec
        ≤ length (sent (throttler (faults first)).inner.inner) * nanos_per_sec + allowance
  Life-within_rates begun = omega arith
  Life-within_rates {first} (use_with {t} {t'} {allowance} before k pos uses) =
      let old = throttler (faults t) in
      let sent' = λ (delayed : DelayedWriter T DynamicDuration Sleep). sent delayed.inner in
      let had = length (sent old.inner.inner) + old.lb.budget in
      let rate = k.throttle_rate.size in
      let account =
        Uses-Preserves (keeps had old.lb.last_update rate pos)
          (read_keeps had old.lb.last_update rate)
          (rw (same t (set_knobs (faults t) k)) (opened sent' (throttler (set_knobs (faults t) k))))
          uses in
      OnBudget-closed sent' had old.lb.last_update rate
        (length (sent (throttler (faults first)).inner.inner)) allowance (throttler (faults t'))
        account (Life-within_rates before)

module _ {Cx B T Sleep G : Type 0} ⦃tm : Timer Cx Sleep⦄ ⦃rn : Rng G⦄ ⦃w : AsyncWrite Cx T⦄
    ⦃rb : ReadBuf B⦄ ⦃r : AsyncRead Cx B T⦄ {sent : T → List ℕ} (c : WriteContract w sent)
    (silent : (t : T) (cx : Cx) (buf : B) → sent (r.poll_read t cx buf).1 ≡ sent t) where
  -- The stream to the upstream of a connection, over a socket that keeps the contract of
  -- `AsyncWrite` and whose reads send nothing, used by any calls of both halves in any order, while
  -- the API sets all five knobs between them to anything but a rate of 0: the bytes that come to the
  -- socket, noise and the bytes of failed writes included, and the tokens that are left are at most
  -- the tokens of the bucket at first, and each rate times the advance of the bucket's clock while
  -- that rate held.
  pub upstream_within_rates :
      {first this : Faulty T Sleep G} {allowance : ℕ}
      → Life Cx B (λ t. t) (λ t f. f) first this allowance
      → (length (sent (throttler this).inner.inner) + (throttler this).lb.budget) * nanos_per_sec
        ≤ length (sent (throttler first).inner.inner) * nanos_per_sec + allowance
  upstream_within_rates life =
      Life-within_rates sent (λ t. t) (λ t f. f) (λ t f. refl)
        (λ start since rate pos. faulty_write-Preserves start since rate c pos)
        (λ start since rate. faulty_read-Preserves start since rate silent) life

  -- The stream to the client of a connection, over a socket that keeps the contract of `AsyncWrite`
  -- and whose reads send nothing, under the adapters and a shutdowner whose receiver answers with
  -- anything at any time. It is used by any calls of both halves in any order, while the API sets all
  -- five knobs between them to anything but a rate of 0: the bytes that come to the socket, noise and
  -- the bytes of failed writes included, and the tokens that are left are at most the tokens of the
  -- bucket at first, and each rate times the advance of the bucket's clock while that rate held.
  pub downstream_within_rates :
      {Rx : Type 0} ⦃rc : Receiver Cx Rx⦄ {first this : Downstream T Sleep G Rx} {allowance : ℕ}
      → Life Cx B (λ t. t.inner) Shutdowner.put_inner first this allowance
      → (length (sent (throttler this.inner).inner.inner) + (throttler this.inner).lb.budget)
          * nanos_per_sec
        ≤ length (sent (throttler first.inner).inner.inner) * nanos_per_sec + allowance
  downstream_within_rates life =
      Life-within_rates sent (λ t. t.inner) Shutdowner.put_inner (λ t f. refl)
        (λ start since rate pos.
          shutdowner_write-Preserves (faulty_write-Preserves start since rate c pos))
        (λ start since rate.
          shutdowner_read-Preserves (faulty_read-Preserves start since rate silent))
        life

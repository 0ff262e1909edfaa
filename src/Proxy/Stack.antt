-- ===== src/Proxy/Stack.antt =====
-- trixter/src/main.rs: the write half that `handle_connection` builds over each socket, from the
-- builder methods of tokio-netem/src/io.rs.
mod Tests
use trixter.Prelude.{ℕ, ◌≤◌, ◌≡◌, refl, false, List, ◌++◌, take, length, is_empty}
use trixter.Tokio.{ready, ok, AsyncWrite, Timer, WriteContract}
use trixter.Slicer.{writing, SlicedWriter, DynamicSize, dynamic_size, poll_write}
use trixter.Slicer.Once.{Retries, Retries-poll_write}
use trixter.Throttler.{DynamicRate, dynamic_rate}
use trixter.Throttler.Writer.{ThrottledWriter, throttled_write}
use trixter.Throttler.Writer as RateWriter
use trixter.Throttler.Writer.Contract.{throttled_write-WriteContract}
use trixter.Delayer.{DynamicDuration, dynamic_duration}
use trixter.Delayer.Writer.{DelayedWriter, delayed_write}
use trixter.Delayer.Writer as DelayWriter
use trixter.Builders.{delay_writes_dyn, throttle_writes_dyn, slice_writes_dyn}
use trixter.Delayer.Writer.Contract.{delayed_write-WriteContract}

abbrev pub Shaped : Type 0 → Type 0 → Type 0
Shaped T Sleep =
    SlicedWriter (ThrottledWriter (DelayedWriter T DynamicDuration Sleep) DynamicRate Sleep)
      DynamicSize

-- The bytes that have come to the socket.
abbrev pub on_socket : {T Sleep : Type 0} → (T → List ℕ) → Shaped T Sleep → List ℕ
on_socket sent this = sent this.inner.inner.inner

module _ {Cx Sleep T : Type 0} ⦃tm : Timer Cx Sleep⦄ ⦃w : AsyncWrite Cx T⦄ where
  -- `.delay_writes_dyn(delay).throttle_writes_dyn(throttle_rate).slice_writes_dyn(slice_size)`
  unfoldable pub shape : T → DynamicDuration → DynamicRate → DynamicSize → Cx → Shaped T Sleep × Cx
  shape socket delay throttle_rate slice_size cx =
      let delayed = delay_writes_dyn socket delay cx in
      let (throttled, cx') = throttle_writes_dyn delayed throttle_rate cx in
      (slice_writes_dyn throttled slice_size, cx')

  pub shaped-WriteContract :
      (sent : T → List ℕ)
      → WriteContract w sent
      → WriteContract
          (throttled_write {Cx = Cx} {Sleep = Sleep} {T = DelayedWriter T DynamicDuration Sleep}
            {R = DynamicRate})
          (λ this. sent this.inner.inner)
  shaped-WriteContract sent c =
      throttled_write-WriteContract (λ this. sent this.inner) (delayed_write-WriteContract sent c)

  -- Through the writers that the proxy puts over a fresh socket that keeps the contract of
  -- `AsyncWrite`, whatever the three knobs are set to at first: a write of a buffer that is not empty,
  -- polled with the same bytes until it finishes, and only while the slice size is not 0, has brought
  -- exactly the bytes that it reports to the socket, once and in their order.
  pub shape-once :
      (sent : T → List ℕ) (c : WriteContract w sent) (socket : T) (delay : DynamicDuration)
      (throttle_rate : DynamicRate) (slice_size : DynamicSize) (cx₀ cx : Cx) (buf : List ℕ) (n : ℕ)
      {this : Shaped T Sleep}
      → is_empty buf ≡ false
      → Retries Cx buf (shape socket delay throttle_rate slice_size cx₀).0 this
      → dynamic_size.is_zero this.size ≡ false
      → (poll_write this cx buf).0 ≡ ready (ok n)
      → (n ≤ length buf) × (on_socket sent (poll_write this cx buf).1 ≡ sent socket ++ take n buf)
  unfolding shape DelayWriter.new_writer RateWriter.new_writer
  shape-once sent c socket delay throttle_rate slice_size cx₀ cx buf n e rs z done =
      let (short, idle, sends) =
        Retries-poll_write (shaped-WriteContract sent c) cx (sent socket) buf n refl refl e rs z
          done in
      (short, sends)

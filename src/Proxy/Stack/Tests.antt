-- ===== src/Proxy/Stack/Tests.antt =====
-- trixter/src/main.rs: examples of the stack of writers.
use trixter.Prelude.{ℕ, ◌≤◌, ◌≡◌, refl, List, [], ◌∷◌, take}
use trixter.Tokio.{ready, ok}
use trixter.Fixtures.{Tape, blank, on_tape, tape, tape_contract, clock_timer, running}
use trixter.Slicer.{poll_write, dynamic_size}
use trixter.Throttler.Bucket.{new_bucket}
use trixter.Throttler.Writer as RateWriter
use trixter.Throttler.Writer.{throttled_write}
use trixter.Delayer.Writer as DelayWriter
use trixter.Delayer.Writer.{delayed_write}
use trixter.Delayer.{dynamic_duration}
use trixter.Throttler.{dynamic_rate}
use trixter.Slicer.Once.{start}
use trixter.Delayer.{DynamicDuration}
use trixter.Throttler.{DynamicRate}
use trixter.Slicer.{DynamicSize}
use trixter.Proxy.Stack.{Shaped, shape, on_socket, shape-once}

-- No delay, no rate limit, slices of two.
abbrev no_delay : DynamicDuration
no_delay = record { cell = 0 }

abbrev no_limit : DynamicRate
no_limit = record { size = 0 }

abbrev twos : DynamicSize
twos = record { cell = 2 }

abbrev bytes : List ℕ
bytes = 10 ∷ 11 ∷ 12 ∷ []

abbrev fresh : Shaped Tape ℕ
fresh = (shape blank no_delay no_limit twos running).0

finished : (poll_write fresh running bytes).0 ≡ ready (ok 2)
unfolding poll_write shape DelayWriter.new_writer DelayWriter.poll_with_write_delay
    RateWriter.new_writer RateWriter.poll_write RateWriter.poll_flush throttled_write new_bucket
    trixter.Delayer.Delay.poll trixter.Delayer.Delay.maybe_delay
finished = refl

shape-once_example : (2 ≤ 3) × (on_socket on_tape (poll_write fresh running bytes).1 ≡ take 2 bytes)
unfolding shape DelayWriter.new_writer RateWriter.new_writer
shape-once_example =
    shape-once {Sleep = ℕ} on_tape tape_contract blank no_delay no_limit twos running running bytes
      2 refl start refl finished

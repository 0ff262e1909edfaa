-- ===== src/Tokio/Task.antt =====
-- `std::task::Poll`, `std::io::Result` and `std::io::Error`, with the early returns of `ready!` and `?`.
use Prim.Native.String.{String}
use trixter.Prelude.{ℕ}

pub data Poll {ℓ} (A : Type ℓ) : Type ℓ where
  pending : Poll A
  ready : A → Poll A

-- An `io::Error` is a custom error of some kind, or one of the operating system by its number. A
-- payload is a value behind `Box<dyn Error + Send + Sync>`.
mutual
  pub data IoError : Type 0 where
    other : Payload → IoError
    invalid_input : Payload → IoError
    write_zero : IoError
    os : ℕ → IoError

  pub data Payload : Type 0 where
    terminated_error : Payload
    shutdown_error : Payload
    timeout_error : Payload
    dynamic_probability_error : Payload
    message : String → Payload
    io_error : IoError → Payload

-- `io::Result`, with two outcomes that Rust does not return: the call panicked, or a loop of the
-- model ran out of its fuel.
pub data Result {ℓ} (A : Type ℓ) : Type ℓ where
  ok : A → Result A
  err : IoError → Result A
  panic : Result A
  spin : Result A

-- What a poll gives back: its result, the polled object, and the task's context.
abbrev pub Polled : Type 0 → Type 0 → Type 0 → Type 0
Polled A T Cx = Poll (Result A) × T × Cx

-- The same for a read, with the caller's buffer.
abbrev pub PolledRead : Type 0 → Type 0 → Type 0 → Type 0
PolledRead T B Cx = Poll (Result (Unit {0})) × T × B × Cx

-- `ready!(e?)` and `ready!(e)?`: go on with the value, or return from the function at once.
abbrev pub ready_ok :
    {A B T Cx : Type 0} → Poll (Result A) → T → Cx → (A → Polled B T Cx) → Polled B T Cx
ready_ok pending t cx k = (pending, t, cx)
ready_ok (ready (ok a)) t cx k = k a
ready_ok (ready (err e)) t cx k = (ready (err e), t, cx)
ready_ok (ready panic) t cx k = (ready panic, t, cx)
ready_ok (ready spin) t cx k = (ready spin, t, cx)

-- The same in a function that reads into `b`.
abbrev pub ready_read :
    {A T B Cx : Type 0} → Poll (Result A) → T → B → Cx → (A → PolledRead T B Cx) → PolledRead T B Cx
ready_read pending t b cx k = (pending, t, b, cx)
ready_read (ready (ok a)) t b cx k = k a
ready_read (ready (err e)) t b cx k = (ready (err e), t, b, cx)
ready_read (ready panic) t b cx k = (ready panic, t, b, cx)
ready_read (ready spin) t b cx k = (ready spin, t, b, cx)

-- `e?` in a function that returns a result.
infixl 5 ◌>>=◌
abbrev pub ◌>>=◌ : {A B : Type 0} → Result A → (A → Result B) → Result B
ok a >>= f = f a
err e >>= f = err e
panic >>= f = panic
spin >>= f = spin

-- ===== src/Tokio/Traits.antt =====
-- The traits `AsyncWrite`, `AsyncRead` and `AsyncBufRead` of tokio, and its `ReadBuf`, as interfaces.
-- `Cx` is the task's context; a method returns the object and the context as it leaves them.
use trixter.Prelude.{ℕ, Bool, List}
use trixter.Tokio.Task.{Polled, PolledRead}

pub record AsyncWrite (Cx T : Type 0) : Type 0 where
  pub poll_write : T → Cx → List ℕ → Polled ℕ T Cx
  pub poll_flush : T → Cx → Polled (Unit {0}) T Cx
  pub poll_shutdown : T → Cx → Polled (Unit {0}) T Cx
  pub is_write_vectored : T → Bool
  pub poll_write_vectored : T → Cx → List (List ℕ) → Polled ℕ T Cx

pub record AsyncRead (Cx B T : Type 0) : Type 0 where
  pub poll_read : T → Cx → B → PolledRead T B Cx

pub record AsyncBufRead (Cx T : Type 0) : Type 0 where
  pub poll_fill_buf : T → Cx → Polled (List ℕ) T Cx
  pub consume : T → ℕ → T

pub record ReadBuf (B : Type 0) : Type 0 where
  pub remaining : B → ℕ
  pub filled : B → List ℕ
  pub put_slice : B → List ℕ → B

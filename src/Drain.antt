-- ===== src/Drain.antt =====
-- tokio-netem/src/corrupter.rs and tokio-netem/src/injector.rs: the loop that writes a queued buffer
-- out before the caller's bytes, which both adapters have.
pub mod Sends
pub mod Merge
pub mod Spends
pub mod Passes
pub mod Over
use trixter.Prelude.{ℕ, zero, suc, ltb, ◌==◌, List, if◌then◌else◌, length, is_empty, drop}
use trixter.Tokio.{
  Poll, pending, ready, Result, ok, err, panic, spin, write_zero, Polled, AsyncWrite,
}

-- How the inner `while` ends: the buffer is written, or the function returns with what is left.
pub data Drained (T Cx : Type 0) : Type 0 where
  drained : T → Cx → Drained T Cx
  returned : Poll (Result ℕ) → T → List ℕ → Cx → Drained T Cx

module _ {Cx T : Type 0} ⦃w : AsyncWrite Cx T⦄ where
  -- The body of the `while`, behind its write; `again` is the loop.
  advance : (T → Cx → List ℕ → Drained T Cx) → Polled ℕ T Cx → List ℕ → Drained T Cx
  advance again (pending, inner, cx) buffer = returned pending inner buffer cx
  advance again (ready (ok size), inner, cx) buffer =
      if size == 0
      then returned (ready (err write_zero)) inner buffer cx
      else if ltb (length buffer) size
      then returned (ready panic) inner buffer cx
      else again inner cx (drop size buffer)
  advance again (ready (err e), inner, cx) buffer = returned (ready (err e)) inner buffer cx
  advance again (ready panic, inner, cx) buffer = returned (ready panic) inner buffer cx
  advance again (ready spin, inner, cx) buffer = returned (ready spin) inner buffer cx

  drain_loop : ℕ → T → Cx → List ℕ → Drained T Cx
  unfolding advance
  drain_loop zero inner cx buffer =
      if is_empty buffer then drained inner cx else returned (ready spin) inner buffer cx
  drain_loop (suc fuel) inner cx buffer =
      if is_empty buffer
      then drained inner cx
      else advance (drain_loop fuel) (w.poll_write inner cx buffer) buffer

  -- Each write takes a byte at least, so the length is fuel enough.
  unfoldable pub drain : T → Cx → List ℕ → Drained T Cx
  unfolding drain_loop
  drain inner cx buffer = drain_loop (length buffer) inner cx buffer

-- ===== src/Drain/Spends.antt =====
-- tokio-netem/src/corrupter.rs and tokio-netem/src/injector.rs: what the loop that writes a queued
-- buffer out leaves of a budget of the task.
use native.Mathlib.Nat.{le_refl, le_trans}
use trixter.Prelude.{
  ℕ, zero, suc, ◌≤◌, inl, inr, ◌==◌, ltb, Bool-cases, List, length, is_empty, drop,
}
use trixter.Tokio.{Poll, pending, ready, Result, ok, err, panic, spin, AsyncWrite}
use trixter.Drain.{Drained, drained, returned, advance, drain_loop, drain}

-- A measure of the context that no write raises is not raised by the loop either.
module _ {Cx T : Type 0} ⦃w : AsyncWrite Cx T⦄ (left : Cx → ℕ)
    (spends : (t : T) (cx : Cx) (buf : List ℕ) → left (w.poll_write t cx buf).2 ≤ left cx) where
  abbrev pub AtMost : ℕ → Drained T Cx → Type 0
  AtMost n (drained inner cx) = left cx ≤ n
  AtMost n (returned r inner queue cx) = left cx ≤ n

  advance-AtMost :
      (again : T → Cx → List ℕ → Drained T Cx) (r : Poll (Result ℕ)) (inner : T) (cx : Cx)
      (queue : List ℕ) (n : ℕ)
      → left cx ≤ n
      → ((k : ℕ) → AtMost n (again inner cx (drop k queue)))
      → AtMost n (advance again (r, inner, cx) queue)
  unfolding advance
  advance-AtMost again pending inner cx queue n h k = h
  advance-AtMost again (ready (ok size)) inner cx queue n h k = elim (Bool-cases (size == 0)) [
    | inl z ↦ rw z h
    | inr nz ↦ rw nz (elim (Bool-cases (ltb (length queue) size)) [
      | inl over ↦ rw over h
      | inr fits ↦ rw fits (k size)
    ])
  ]
  advance-AtMost again (ready (err e)) inner cx queue n h k = h
  advance-AtMost again (ready panic) inner cx queue n h k = h
  advance-AtMost again (ready spin) inner cx queue n h k = h

  drain_loop-AtMost :
      (fuel n : ℕ) (inner : T) (cx : Cx) (queue : List ℕ)
      → left cx ≤ n
      → AtMost n (drain_loop fuel inner cx queue)
  unfolding drain_loop
  drain_loop-AtMost zero n inner cx queue h = elim (Bool-cases (is_empty queue)) [
    | inl e ↦ rw e h
    | inr ne ↦ rw ne h
  ]
  drain_loop-AtMost (suc fuel) n inner cx queue h = elim (Bool-cases (is_empty queue)) [
    | inl e ↦ rw e h
    | inr ne ↦
        let (r, inner', cx') = w.poll_write inner cx queue in
        rw ne (
          advance-AtMost (drain_loop fuel) r inner' cx' queue n (le_trans (spends inner cx queue) h)
            (λ k.
              drain_loop-AtMost fuel n inner' cx' (drop k queue)
                (le_trans (spends inner cx queue) h)))
  ]

  pub drain-AtMost :
      (inner : T) (cx : Cx) (queue : List ℕ) → AtMost (left cx) (drain inner cx queue)
  unfolding drain
  drain-AtMost inner cx queue =
      drain_loop-AtMost (length queue) (left cx) inner cx queue (le_refl (left cx))

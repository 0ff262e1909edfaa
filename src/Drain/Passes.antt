-- ===== src/Drain/Passes.antt =====
-- The loop that writes a queued buffer out: what it leaves true of the inner object.
use trixter.Prelude.{ℕ, zero, suc, inl, inr, List, ltb, ◌==◌, Bool-cases, length, is_empty, drop}
use trixter.Tokio.{Poll, pending, ready, Result, ok, err, panic, spin, AsyncWrite}
use trixter.Tokio.Calls.{Preserves}
use trixter.Drain.{Drained, drained, returned, advance, drain_loop, drain}

abbrev pub inner_of : {T Cx : Type 0} → Drained T Cx → T
inner_of (drained inner cx) = inner
inner_of (returned r inner left cx) = inner

module _ {Cx T : Type 0} ⦃w : AsyncWrite Cx T⦄ {P : T → Type 0} (keeps : Preserves w P) where
  advance-holds :
      (again : T → Cx → List ℕ → Drained T Cx)
      (again_holds : (t : T) (cx : Cx) (buffer : List ℕ) → P t → P (inner_of (again t cx buffer)))
      (r : Poll (Result ℕ)) (inner : T) (cx : Cx) (buffer : List ℕ)
      → P inner
      → P (inner_of (advance again (r, inner, cx) buffer))
  unfolding advance
  advance-holds again again_holds pending inner cx buffer p = p
  advance-holds again again_holds (ready (ok size)) inner cx buffer p =
      elim (Bool-cases (size == 0)) [
        | inl z ↦ rw z p
        | inr nz ↦ rw nz (elim (Bool-cases (ltb (length buffer) size)) [
          | inl past ↦ rw past p
          | inr fits ↦ rw fits (again_holds inner cx (drop size buffer) p)
        ])
      ]
  advance-holds again again_holds (ready (err e)) inner cx buffer p = p
  advance-holds again again_holds (ready panic) inner cx buffer p = p
  advance-holds again again_holds (ready spin) inner cx buffer p = p

  drain_loop-holds :
      (fuel : ℕ) (inner : T) (cx : Cx) (buffer : List ℕ)
      → P inner
      → P (inner_of (drain_loop fuel inner cx buffer))
  unfolding drain_loop
  drain_loop-holds zero inner cx buffer p = elim (Bool-cases (is_empty buffer)) [
    | inl done ↦ rw done p
    | inr more ↦ rw more p
  ]
  drain_loop-holds (suc fuel) inner cx buffer p = elim (Bool-cases (is_empty buffer)) [
    | inl done ↦ rw done p
    | inr more ↦
        let (r, inner', cx') = w.poll_write inner cx buffer in
        rw more (
          advance-holds (drain_loop fuel) (drain_loop-holds fuel) r inner' cx' buffer
            (keeps.write inner cx buffer p))
  ]

  pub drain-holds :
      (inner : T) (cx : Cx) (buffer : List ℕ) → P inner → P (inner_of (drain inner cx buffer))
  unfolding drain
  drain-holds inner cx buffer p = drain_loop-holds (length buffer) inner cx buffer p

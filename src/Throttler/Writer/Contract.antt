-- ===== src/Throttler/Writer/Contract.antt =====
-- tokio-netem/src/throttler.rs: a throttled writer keeps the promises of a writer.
use trixter.Prelude.{
  ℕ, ◌≤◌, min, ◌≡◌, ◌≢◌, refl, sym, subst, inl, inr, List, ◌++◌, arith, ◌==◌, Bool-cases, length,
  take, concat, length-take, take-take, append-nil,
}
use trixter.Tokio.{
  Poll, pending, ready, Result, ok, err, panic, spin, Polled, ready_ok, AsyncWrite, Timer,
  WriteContract, Accepts,
}
use trixter.Throttler.{Rate}
use trixter.Throttler.Bucket.{poll_acquire}
use trixter.Throttler.Bucket.Panics.{poll_acquire-ne-panic}
use trixter.Throttler.Writer.{
  ThrottledWriter, total_len, trim_slices, deduct, write_granted, poll_write,
  write_vectored_granted, poll_write_vectored, poll_flush, poll_shutdown, throttled_write,
}
use trixter.Throttler.Writer.Trim.{concat-trim_slices}

-- What was accepted from a prefix was accepted from the whole.
pub Accepts-take :
    (r : Poll (Result ℕ)) (k : ℕ) (buf old new : List ℕ)
    → Accepts r (take k buf) old new
    → Accepts r buf old new
Accepts-take (ready (ok n)) k buf old new a =
    let short : n ≤ k = omega (arith, length-take k buf, a.0) in
    (
      omega (arith, length-take k buf, a.0),
      subst (λ bytes. new ≡ old ++ bytes) (take-take n k buf short) a.1,
    )
Accepts-take pending k buf old new a = a
Accepts-take (ready (err e)) k buf old new a = a
Accepts-take (ready panic) k buf old new a = a
Accepts-take (ready spin) k buf old new a = a

module _ {Cx Sleep T R : Type 0} ⦃tm : Timer Cx Sleep⦄ ⦃w : AsyncWrite Cx T⦄ ⦃ra : Rate R⦄
    (sent : T → List ℕ) where
  -- What a poll of a write of `buf` promises of its outcome, from `old`.
  abbrev Keeping : List ℕ → List ℕ → Polled ℕ (ThrottledWriter T R Sleep) Cx → Type 0
  Keeping buf old (r, this, cx) = Accepts r buf old (sent this.inner)

  deduct-Keeping :
      (r : Poll (Result ℕ)) (inner : T) (cx : Cx) (this : ThrottledWriter T R Sleep)
      (buf old : List ℕ)
      → Accepts r buf old (sent inner)
      → Keeping buf old (deduct (r, inner, cx) this)
  unfolding deduct
  deduct-Keeping pending inner cx this buf old a = a
  deduct-Keeping (ready (ok n)) inner cx this buf old a = a
  deduct-Keeping (ready (err e)) inner cx this buf old a = a
  deduct-Keeping (ready panic) inner cx this buf old a = a
  deduct-Keeping (ready spin) inner cx this buf old a = a

  ready_ok-Keeping :
      (r : Poll (Result ℕ)) (this : ThrottledWriter T R Sleep) (cx : Cx) (buf old : List ℕ)
      (k : ℕ → Polled ℕ (ThrottledWriter T R Sleep) Cx)
      → r ≢ ready panic
      → sent this.inner ≡ old
      → ((grant : ℕ) → Keeping buf old (k grant))
      → Keeping buf old (ready_ok r this cx k)
  ready_ok-Keeping pending this cx buf old k np same kk = same
  ready_ok-Keeping (ready (ok grant)) this cx buf old k np same kk = kk grant
  ready_ok-Keeping (ready (err e)) this cx buf old k np same kk = same
  ready_ok-Keeping (ready panic) this cx buf old k np same kk = absurd (np refl)
  ready_ok-Keeping (ready spin) this cx buf old k np same kk = same

  module _ (c : WriteContract w sent) where
    write_granted-Keeping :
        (granted : ℕ) (this : ThrottledWriter T R Sleep) (cx : Cx) (buf : List ℕ)
        → Keeping buf (sent this.inner) (write_granted granted this cx buf)
    unfolding write_granted
    write_granted-Keeping granted this cx buf =
        let grant = min granted (length buf) in
        elim (Bool-cases (grant == 0)) [
          | inl z ↦ rw z (omega arith, sym (append-nil (sent this.inner)))
          | inr nz ↦
              let chunk = take grant buf in
              let (r, inner, cx') = w.poll_write this.inner cx chunk in
              rw nz (
                deduct-Keeping r inner cx' this buf (sent this.inner) (
                  Accepts-take r grant buf (sent this.inner) (sent inner)
                    (c.write_law this.inner cx chunk)))
        ]

    write_vectored_granted-Keeping :
        (grant : ℕ) (this : ThrottledWriter T R Sleep) (cx : Cx) (bufs : List (List ℕ))
        → Keeping (concat bufs) (sent this.inner) (write_vectored_granted grant this cx bufs)
    unfolding write_vectored_granted
    write_vectored_granted-Keeping grant this cx bufs = elim (Bool-cases (grant == 0)) [
      | inl z ↦ rw z (omega arith, sym (append-nil (sent this.inner)))
      | inr nz ↦
          let slices = trim_slices grant bufs in
          let (r, inner, cx') = w.poll_write_vectored this.inner cx slices in
          rw nz (
            deduct-Keeping r inner cx' this (concat bufs) (sent this.inner) (
              Accepts-take r grant (concat bufs) (sent this.inner) (sent inner) (
                subst (λ bytes. Accepts r bytes (sent this.inner) (sent inner))
                  (concat-trim_slices grant bufs) (c.vectored_law this.inner cx slices))))
    ]

    poll_write-Keeping :
        (this : ThrottledWriter T R Sleep) (cx : Cx) (buf : List ℕ)
        → Keeping buf (sent this.inner) (poll_write this cx buf)
    unfolding poll_write
    poll_write-Keeping this cx buf = elim (Bool-cases (ra.is_unlimited this.lb.rate)) [
      | inl free ↦ rw free (c.write_law this.inner cx buf)
      | inr limited ↦
          let (r, lb, cx') = poll_acquire this.lb cx (length buf) in
          let this' = record this { lb = lb } in
          rw limited (
            ready_ok-Keeping r this' cx' buf (sent this.inner)
              (λ grant. write_granted grant this' cx' buf)
              (poll_acquire-ne-panic this.lb cx (length buf)) refl
              (λ grant. write_granted-Keeping grant this' cx' buf))
    ]

    poll_write_vectored-Keeping :
        (this : ThrottledWriter T R Sleep) (cx : Cx) (bufs : List (List ℕ))
        → Keeping (concat bufs) (sent this.inner) (poll_write_vectored this cx bufs)
    unfolding poll_write_vectored
    poll_write_vectored-Keeping this cx bufs = elim (Bool-cases (ra.is_unlimited this.lb.rate)) [
      | inl free ↦ rw free (c.vectored_law this.inner cx bufs)
      | inr limited ↦
          let (r, lb, cx') = poll_acquire this.lb cx (total_len bufs) in
          let this' = record this { lb = lb } in
          rw limited (
            ready_ok-Keeping r this' cx' (concat bufs) (sent this.inner)
              (λ grant. write_vectored_granted grant this' cx' bufs)
              (poll_acquire-ne-panic this.lb cx (total_len bufs)) refl
              (λ grant. write_vectored_granted-Keeping grant this' cx' bufs))
    ]

    -- Over an inner writer that keeps the contract of `AsyncWrite` for the bytes that it has sent, a
    -- throttled writer keeps it for the same bytes, at every rate and in every state.
    pub throttled_write-WriteContract :
        WriteContract
          (throttled_write {Cx = Cx} {Sleep = Sleep} {T = T} {R = R})
          (λ this. sent this.inner)
    unfolding throttled_write poll_flush poll_shutdown
    throttled_write-WriteContract = record {
      write_law = poll_write-Keeping;
      flush_law = λ this cx. c.flush_law this.inner cx;
      shutdown_law = λ this cx. c.shutdown_law this.inner cx;
      vectored_law = poll_write_vectored-Keeping;
    }

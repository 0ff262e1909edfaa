-- ===== src/Throttler/Writer/Passes.antt =====
-- tokio-netem/src/throttler.rs: what a throttled writer leaves true of its inner object.
use trixter.Prelude.{ℕ, min, inl, inr, List, ◌==◌, Bool-cases, length, take}
use trixter.Tokio.{Poll, pending, ready, Result, ok, err, panic, spin, AsyncWrite, Timer}
use trixter.Tokio.Calls.{Preserves, ready_ok-holds}
use trixter.Throttler.Knob.{Rate}
use trixter.Throttler.Bucket.{poll_acquire}
use trixter.Throttler.Writer.{
  ThrottledWriter, total_len, trim_slices, deduct, write_granted, poll_write,
  write_vectored_granted, poll_write_vectored, poll_flush, poll_shutdown, throttled_write,
}

module _ {Cx Sleep T R : Type 0} ⦃tm : Timer Cx Sleep⦄ ⦃w : AsyncWrite Cx T⦄ ⦃ra : Rate R⦄
    {P : T → Type 0} (keeps : Preserves w P) where
  deduct-holds :
      (r : Poll (Result ℕ)) (inner : T) (cx : Cx) (this : ThrottledWriter T R Sleep)
      → P inner
      → P (deduct (r, inner, cx) this).1.inner
  unfolding deduct
  deduct-holds pending inner cx this p = p
  deduct-holds (ready (ok n)) inner cx this p = p
  deduct-holds (ready (err e)) inner cx this p = p
  deduct-holds (ready panic) inner cx this p = p
  deduct-holds (ready spin) inner cx this p = p

  write_granted-holds :
      (granted : ℕ) (this : ThrottledWriter T R Sleep) (cx : Cx) (buf : List ℕ)
      → P this.inner
      → P (write_granted granted this cx buf).1.inner
  unfolding write_granted
  write_granted-holds granted this cx buf p =
      let grant = min granted (length buf) in
      let (r, inner, cx') = w.poll_write this.inner cx (take grant buf) in
      elim (Bool-cases (grant == 0)) [
        | inl z ↦ rw z p
        | inr nz ↦ rw nz (deduct-holds r inner cx' this (keeps.write this.inner cx _ p))
      ]

  write_vectored_granted-holds :
      (grant : ℕ) (this : ThrottledWriter T R Sleep) (cx : Cx) (bufs : List (List ℕ))
      → P this.inner
      → P (write_vectored_granted grant this cx bufs).1.inner
  unfolding write_vectored_granted
  write_vectored_granted-holds grant this cx bufs p =
      let (r, inner, cx') = w.poll_write_vectored this.inner cx (trim_slices grant bufs) in
      elim (Bool-cases (grant == 0)) [
        | inl z ↦ rw z p
        | inr nz ↦ rw nz (deduct-holds r inner cx' this (keeps.write_vectored this.inner cx _ p))
      ]

  pub throttled_write-Preserves_inner :
      Preserves (throttled_write {Cx = Cx} {Sleep = Sleep} {T = T} {R = R}) (λ this. P this.inner)
  unfolding throttled_write poll_write poll_write_vectored poll_flush poll_shutdown
  throttled_write-Preserves_inner = record {
    write = λ this cx buf p.
        let (r, lb, cx') = poll_acquire this.lb cx (length buf) in
        elim (Bool-cases (ra.is_unlimited this.lb.rate)) [
          | inl free ↦ rw free (keeps.write this.inner cx buf p)
          | inr limited ↦ rw limited (
              ready_ok-holds (λ (t : ThrottledWriter T R Sleep). P t.inner) r
                (record this { lb = lb }) cx'
                (λ grant. write_granted grant (record this { lb = lb }) cx' buf) p
                (λ grant. write_granted-holds grant (record this { lb = lb }) cx' buf p))
        ];
    write_vectored = λ this cx bufs p.
        let (r, lb, cx') = poll_acquire this.lb cx (total_len bufs) in
        elim (Bool-cases (ra.is_unlimited this.lb.rate)) [
          | inl free ↦ rw free (keeps.write_vectored this.inner cx bufs p)
          | inr limited ↦ rw limited (
              ready_ok-holds (λ (t : ThrottledWriter T R Sleep). P t.inner) r
                (record this { lb = lb }) cx'
                (λ grant. write_vectored_granted grant (record this { lb = lb }) cx' bufs) p
                (λ grant. write_vectored_granted-holds grant (record this { lb = lb }) cx' bufs p))
        ];
    flush = λ this cx p. keeps.flush this.inner cx p;
    shutdown = λ this cx p. keeps.shutdown this.inner cx p;
  }

-- ===== src/Throttler/Writer/Limit.antt =====
-- tokio-netem/src/throttler.rs: how much a throttled writer sends in a time.
use trixter.Prelude.{
  ℕ, ◌+◌, ◌*◌, ◌≤◌, ◌<◌, min, ◌≡◌, ap, false, inl, inr, List, arith, ◌==◌, Bool-cases, length, take,
  concat, length-take,
}
use trixter.Tokio.{AsyncWrite, AsyncRead, Timer, WriteContract}
use trixter.Tokio.Calls.{Calls, Preserves, ReadPreserves, Calls-Preserves}
use trixter.Throttler.Knob.{Rate, SteadyRate}
use trixter.Throttler.Bucket.{nanos_per_sec}
use trixter.Throttler.Bucket.Meter.{new_bucket-Metered, rate-new_bucket}
use trixter.Throttler.Writer.{
  ThrottledWriter, new_writer, total_len, trim_slices, write_granted, poll_write,
  write_vectored_granted, poll_write_vectored, poll_flush, poll_shutdown, throttled_write,
  throttled_writer_read,
}
use trixter.Throttler.Writer.Trim.{concat-trim_slices}
use trixter.Throttler.Writer.Budget.{
  OnBudget, Keeps-same, within_rate, keep_sent, deduct-OnBudget, acquired-OnBudget,
}

module _ {Cx Sleep T R : Type 0} ⦃tm : Timer Cx Sleep⦄ ⦃w : AsyncWrite Cx T⦄ ⦃ra : Rate R⦄
    (steady : SteadyRate ra) (sent : T → List ℕ) (start since rate : ℕ) where
  module _ (c : WriteContract w sent) (pos : 0 < rate) where
    write_granted-OnBudget :
        (granted : ℕ) (this : ThrottledWriter T R Sleep) (cx : Cx) (buf : List ℕ)
        → granted ≤ this.lb.budget
        → OnBudget sent start since rate this
        → OnBudget sent start since rate (write_granted granted this cx buf).1
    unfolding write_granted
    write_granted-OnBudget granted this cx buf g b =
        let grant = min granted (length buf) in
        elim (Bool-cases (grant == 0)) [
          | inl z ↦ rw z b
          | inr nz ↦
              let chunk = take grant buf in
              let (r, inner, cx') = w.poll_write this.inner cx chunk in
              rw nz (
                deduct-OnBudget sent start since rate r inner cx' this chunk
                  (c.write_law this.inner cx chunk) (omega (arith, length-take grant buf)) b)
        ]

    write_vectored_granted-OnBudget :
        (bufs : List (List ℕ)) (grant : ℕ) (this : ThrottledWriter T R Sleep) (cx : Cx)
        → grant ≤ this.lb.budget
        → OnBudget sent start since rate this
        → OnBudget sent start since rate (write_vectored_granted grant this cx bufs).1
    unfolding write_vectored_granted
    write_vectored_granted-OnBudget bufs grant this cx g b = elim (Bool-cases (grant == 0)) [
      | inl z ↦ rw z b
      | inr nz ↦
          let slices = trim_slices grant bufs in
          let (r, inner, cx') = w.poll_write_vectored this.inner cx slices in
          rw nz (
            deduct-OnBudget sent start since rate r inner cx' this (concat slices)
              (c.vectored_law this.inner cx slices)
              (omega
                (arith, ap length (concat-trim_slices grant bufs), length-take grant (concat bufs)))
              b)
    ]

    limited_rate :
        (this : ThrottledWriter T R Sleep)
        → OnBudget sent start since rate this
        → ra.is_unlimited this.lb.rate ≡ false
    limited_rate this b = rw (steady.unlimited_at_zero this.lb.rate) (ground (arith, b.at_rate))

    poll_write-OnBudget :
        (this : ThrottledWriter T R Sleep) (cx : Cx) (buf : List ℕ)
        → OnBudget sent start since rate this
        → OnBudget sent start since rate (poll_write this cx buf).1
    unfolding poll_write
    poll_write-OnBudget this cx buf b = rw (limited_rate this b) (
        acquired-OnBudget sent start since rate this cx (length buf)
          (λ grant t cx'. write_granted grant t cx' buf) pos b
          (λ grant t cx' g b'. write_granted-OnBudget grant t cx' buf g b'))

    poll_write_vectored-OnBudget :
        (this : ThrottledWriter T R Sleep) (cx : Cx) (bufs : List (List ℕ))
        → OnBudget sent start since rate this
        → OnBudget sent start since rate (poll_write_vectored this cx bufs).1
    unfolding poll_write_vectored
    poll_write_vectored-OnBudget this cx bufs b = rw (limited_rate this b) (
        acquired-OnBudget sent start since rate this cx (total_len bufs)
          (λ grant t cx'. write_vectored_granted grant t cx' bufs) pos b
          (write_vectored_granted-OnBudget bufs))

    poll_flush-OnBudget :
        (this : ThrottledWriter T R Sleep) (cx : Cx)
        → OnBudget sent start since rate this
        → OnBudget sent start since rate (poll_flush this cx).1
    unfolding poll_flush
    poll_flush-OnBudget this cx b =
        keep_sent sent start since rate this _ (Keeps-same _ (c.flush_law this.inner cx)) b

    poll_shutdown-OnBudget :
        (this : ThrottledWriter T R Sleep) (cx : Cx)
        → OnBudget sent start since rate this
        → OnBudget sent start since rate (poll_shutdown this cx).1
    unfolding poll_shutdown
    poll_shutdown-OnBudget this cx b =
        keep_sent sent start since rate this _ (Keeps-same _ (c.shutdown_law this.inner cx)) b

    -- Whatever is called, the account is kept.
    pub throttled_write-Preserves :
        Preserves
          (throttled_write {Cx = Cx} {Sleep = Sleep} {T = T} {R = R})
          (OnBudget sent start since rate)
    unfolding throttled_write
    throttled_write-Preserves = record {
      write = poll_write-OnBudget;
      write_vectored = poll_write_vectored-OnBudget;
      flush = poll_flush-OnBudget;
      shutdown = poll_shutdown-OnBudget;
    }

module _ {Cx B Sleep T R : Type 0} ⦃r : AsyncRead Cx B T⦄ ⦃ra : Rate R⦄ (sent : T → List ℕ)
    (start since rate : ℕ) where
  -- A read that sends nothing keeps the account as well.
  pub throttled_writer_read-Preserves :
      ((t : T) (cx : Cx) (buf : B) → sent (r.poll_read t cx buf).1 ≡ sent t)
      → ReadPreserves
          (throttled_writer_read {Cx = Cx} {B = B} {T = T} {R = R} {Sleep = Sleep})
          (OnBudget sent start since rate)
  throttled_writer_read-Preserves silent = record {
    read = λ this cx buf b.
        keep_sent sent start since rate this (r.poll_read this.inner cx buf).1
          (silent this.inner cx buf) b;
  }

module _ {Cx Sleep T R : Type 0} ⦃tm : Timer Cx Sleep⦄ ⦃w : AsyncWrite Cx T⦄ ⦃ra : Rate R⦄
    (sent : T → List ℕ) where
  pub new_writer-OnBudget :
      (inner : T) (rate : R) (cx : Cx)
      → let this : ThrottledWriter T R Sleep = (new_writer inner rate cx).0 in
        OnBudget sent (length (sent inner) + ra.rate rate) (tm.now cx).0 (ra.rate rate) this
  unfolding new_writer
  new_writer-OnBudget inner rate cx = record {
    metered = new_bucket-Metered Sleep (length (sent inner)) rate cx;
    at_rate = ap ra.rate (rate-new_bucket Sleep rate cx);
  }

module _ {Cx Sleep T R : Type 0} ⦃tm : Timer Cx Sleep⦄ ⦃w : AsyncWrite Cx T⦄ ⦃ra : Rate R⦄
    (steady : SteadyRate ra) {sent : T → List ℕ} (c : WriteContract w sent) where
  -- A writer made over an inner writer that keeps its contract, at a fixed rate that is not 0, and
  -- then used by any calls of the write half in any order: the bytes that it has sent since it was
  -- made are at most one second of the rate, and the rate times the clock's advance from then to
  -- the last refill of the bucket (times are in nanoseconds, so both sides are scaled by a second).
  -- The rate is a number or a knob, and is unlimited exactly if it is 0.
  pub sent_within_rate :
      (inner : T) (rate : R) (cx : Cx) {this : ThrottledWriter T R Sleep}
      → 0 < ra.rate rate
      → Calls Cx (new_writer inner rate cx).0 this
      → length (sent this.inner) * nanos_per_sec + ra.rate rate * (tm.now cx).0
        ≤ (length (sent inner) + ra.rate rate) * nanos_per_sec + ra.rate rate * this.lb.last_update
  sent_within_rate inner rate cx {this} pos cs =
      let b =
        Calls-Preserves
          (throttled_write-Preserves steady sent (length (sent inner) + ra.rate rate) (tm.now cx).0
            (ra.rate rate) c pos)
          (new_writer-OnBudget sent inner rate cx) cs in
      within_rate b.metered b.at_rate

-- ===== src/Throttler/Reader/Delivery.antt =====
-- tokio-netem/src/throttler.rs: what a throttled read hands over.
use trixter.Prelude.{
  ℕ, ◌+◌, ◌≤◌, ◌<◌, min, ◌≡◌, refl, sym, ◌⊎◌, inl, inr, false, List, ◌++◌, ◌==◌, Bool-cases, arith,
  length, length-take, take, append-nil,
}
use trixter.Tokio.{
  Poll, pending, ready, Result, ok, err, panic, spin, ready_read, AsyncRead, AsyncBufRead, ReadBuf,
  ReadBufLaws, Timer,
}
use trixter.Throttler.Knob.{usize_rate}
use trixter.Throttler.Bucket.{LeakyBucket, poll_acquire}
use trixter.Throttler.Bucket.Meter.{
  Granted, poll_acquire-Accounted, budget-consume_tokens, Metered-now,
}
use trixter.Throttler.Reader.{ThrottledReader, read_granted, read_filled, poll_read}

-- Of `rem`, the first bytes went to the end of `buf`, as many as were consumed of `inner` and no
-- more than the bucket `lb` held, and the bucket paid for them.
pub record Delivered {T Sleep B : Type 0} (rb : ReadBuf B) (consume : T → ℕ → T) (rem : List ℕ)
    (inner : T) (lb : LeakyBucket ℕ Sleep) (buf : B) (this : ThrottledReader T ℕ Sleep) (buf' : B)
    : Type 0 where
  pub amount : ℕ
  pub fits : amount ≤ rb.remaining buf
  pub offered : amount ≤ length rem
  pub paid : amount + this.lb.budget ≡ lb.budget
  pub copied : rb.filled buf' ≡ rb.filled buf ++ take amount rem
  pub consumed : (this.inner ≡ consume inner amount) ⊎ ((amount ≡ 0) × (this.inner ≡ inner))

-- A read that does not succeed hands over nothing and consumes nothing.
abbrev pub Handed :
    {T Sleep B : Type 0}
    → ReadBuf B
    → (T → ℕ → T)
    → List ℕ
    → T
    → LeakyBucket ℕ Sleep
    → B
    → Poll (Result (Unit {0}))
    → ThrottledReader T ℕ Sleep
    → B
    → Type 0
Handed rb consume rem inner lb buf (ready (ok _)) this buf' =
    Delivered rb consume rem inner lb buf this buf'
Handed rb consume rem inner lb buf _ this buf' = (this.inner ≡ inner) × (buf' ≡ buf)

limited_rate : (rate : ℕ) → 0 < rate → (rate == 0) ≡ false
limited_rate rate pos = ground arith

module _ {Cx Sleep T B : Type 0} ⦃tm : Timer Cx Sleep⦄ ⦃br : AsyncBufRead Cx T⦄
    ⦃rb : ReadBuf B⦄ where
  module _ (laws : ReadBufLaws rb) where
    read_granted-Delivered :
        (granted : ℕ) (rem : List ℕ) (this : ThrottledReader T ℕ Sleep) (buf : B) (cx : Cx)
        → granted ≤ length rem
        → granted ≤ this.lb.budget
        → let (r, this', buf', cx') = read_granted granted rem this buf cx in
          Handed rb br.consume rem this.inner this.lb buf r this' buf'
    unfolding read_granted
    read_granted-Delivered granted rem this buf cx short left =
        let grant = min granted (rb.remaining buf) in
        elim (Bool-cases (grant == 0)) [
          | inl z ↦ rw z record {
            amount = 0;
            fits = omega arith;
            offered = omega arith;
            paid = omega arith;
            copied = sym (append-nil (rb.filled buf));
            consumed = inr (refl, refl);
          }
          | inr nz ↦ rw nz record {
            amount = grant;
            fits = omega arith;
            offered = omega arith;
            paid = omega (arith, budget-consume_tokens this.lb grant);
            copied =
                laws.filled-put_slice buf (take grant rem) (omega (arith, length-take grant rem));
            consumed = inl refl;
          }
        ]

    ready_read-Handed :
        (r : Poll (Result ℕ)) (rem : List ℕ) (this : ThrottledReader T ℕ Sleep) (buf : B) (cx : Cx)
        → Granted r (length rem) this.lb
        → let (r', this', buf', cx') =
            ready_read r this buf cx (λ granted. read_granted granted rem this buf cx) in
          Handed rb br.consume rem this.inner this.lb buf r' this' buf'
    ready_read-Handed pending rem this buf cx g = (refl, refl)
    ready_read-Handed (ready (ok granted)) rem this buf cx g =
        read_granted-Delivered granted rem this buf cx g.0 g.1
    ready_read-Handed (ready (err e)) rem this buf cx g = (refl, refl)
    ready_read-Handed (ready panic) rem this buf cx g = (refl, refl)
    ready_read-Handed (ready spin) rem this buf cx g = (refl, refl)

    read_filled-Handed :
        (rem : List ℕ) (this : ThrottledReader T ℕ Sleep) (buf : B) (cx : Cx)
        → 0 < this.lb.rate
        → let (r, this', buf', cx') = read_filled rem this buf cx in
          Handed rb br.consume rem this.inner
            (poll_acquire this.lb cx (length rem)).1
            buf
            r
            this'
            buf'
    unfolding read_filled
    read_filled-Handed rem this buf cx pos =
        let (r, lb, cx') = poll_acquire this.lb cx (length rem) in
        let (m, g, same) =
          poll_acquire-Accounted this.lb.budget 0 0 (length rem) this.lb cx pos
            (Metered-now this.lb) in
        ready_read-Handed r rem (record this { lb = lb }) buf cx' g

    -- A throttled read, at a fixed rate that is not 0, whose inner buffer has the bytes `rem`. If it
    -- succeeds it has copied the first bytes of `rem`, no more than fit, behind what the caller's
    -- buffer had, and exactly these are consumed from the inner buffer and paid for by the bucket as
    -- its poll left it; else it has copied and consumed nothing.
    pub poll_read-Handed :
        ⦃rd : AsyncRead Cx B T⦄ (this : ThrottledReader T ℕ Sleep) (cx cx₁ : Cx) (buf : B)
        (rem : List ℕ) (inner : T)
        → 0 < this.lb.rate
        → br.poll_fill_buf this.inner cx ≡ (ready (ok rem), inner, cx₁)
        → let (r, this', buf', cx') = poll_read this cx buf in
          Handed rb br.consume rem inner (poll_acquire this.lb cx₁ (length rem)).1 buf r this' buf'
    unfolding poll_read
    poll_read-Handed this cx cx₁ buf rem inner pos h =
        rw (limited_rate this.lb.rate pos, h)
          (read_filled-Handed rem (record this { inner = inner }) buf cx₁ pos)

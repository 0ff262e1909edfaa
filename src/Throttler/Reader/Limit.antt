-- ===== src/Throttler/Reader/Limit.antt =====
-- tokio-netem/src/throttler.rs: how much a throttled reader takes off its stream in a time.
use trixter.Prelude.{
  ℕ, ◌+◌, ◌*◌, ◌≤◌, ◌<◌, min, ◌≡◌, ap, sym, subst, ◌∙◌, false, inl, inr, List, ◌++◌, arith, ◌==◌,
  Bool-cases, length, take, length-take, length-append,
}
use trixter.Tokio.{
  Poll, pending, ready, Result, ok, err, panic, spin, ready_read, AsyncRead, AsyncBufRead, ReadBuf,
  Timer, Fills, BufReadContract,
}
use trixter.Throttler.Knob.{Rate, SteadyRate}
use trixter.Throttler.Bucket.{nanos_per_sec, poll_acquire, consume_tokens}
use trixter.Throttler.Bucket.Meter.{
  Metered, Granted, consume_tokens-Metered, poll_acquire-Accounted, rate-consume_tokens,
  new_bucket-Metered, rate-new_bucket,
}
use trixter.Throttler.Writer.Budget.{within_rate}
use trixter.Throttler.Reader.{ThrottledReader, new_reader, read_granted, read_filled, poll_read}

-- The readers that reads reach, into any buffers and at any times.
module _ (Cx B : Type 0) {Sleep T R : Type 0} ⦃tm : Timer Cx Sleep⦄ ⦃ra : Rate R⦄
    ⦃br : AsyncBufRead Cx T⦄ ⦃rb : ReadBuf B⦄ ⦃rd : AsyncRead Cx B T⦄ where
  pub data Reads (first : ThrottledReader T R Sleep) : ThrottledReader T R Sleep → Type 0 where
    created : Reads first first
    read :
        {t : ThrottledReader T R Sleep}
        → Reads first t
        → (cx : Cx) (buf : B) → Reads first (poll_read t cx buf).1

-- The bytes taken are the tokens spent, and the rate is the one set.
pub record Paid {Sleep T R : Type 0} ⦃ra : Rate R⦄ (taken : T → List ℕ) (start since rate : ℕ)
    (this : ThrottledReader T R Sleep) : Type 0 where
  pub metered : Metered start since (length (taken this.inner)) this.lb
  pub at_rate : ra.rate this.lb.rate ≡ rate

keep_taken :
    {Sleep T R : Type 0} ⦃ra : Rate R⦄ (taken : T → List ℕ) (start since rate : ℕ)
    (this : ThrottledReader T R Sleep) (inner : T)
    → taken inner ≡ taken this.inner
    → Paid taken start since rate this
    → Paid taken start since rate (record this { inner = inner })
keep_taken taken start since rate this inner same p = record {
  metered = subst (λ k. Metered start since k this.lb) (ap length (sym same)) p.metered;
  at_rate = p.at_rate;
}

module _ {Cx Sleep T R : Type 0} ⦃tm : Timer Cx Sleep⦄ ⦃ra : Rate R⦄ ⦃br : AsyncBufRead Cx T⦄
    (taken : T → List ℕ) (start since rate : ℕ) where
  module _ {B : Type 0} ⦃rb : ReadBuf B⦄ where
    read_granted-Paid :
        (granted : ℕ) (rem : List ℕ) (this : ThrottledReader T R Sleep) (buf : B) (cx : Cx)
        → ((n : ℕ)
            → n ≤ length rem
            → taken (br.consume this.inner n) ≡ taken this.inner ++ take n rem)
        → granted ≤ length rem
        → granted ≤ this.lb.budget
        → Paid taken start since rate this
        → Paid taken start since rate (read_granted granted rem this buf cx).1
    unfolding read_granted
    read_granted-Paid granted rem this buf cx consumes short left p =
        let grant = min granted (rb.remaining buf) in
        elim (Bool-cases (grant == 0)) [
          | inl z ↦ rw z p
          | inr nz ↦
              let more : length (taken (br.consume this.inner grant))
                  ≡ length (taken this.inner) + grant =
                omega (
                  arith,
                  ap length (consumes grant (omega arith)),
                  length-append (taken this.inner) (take grant rem),
                  length-take grant rem,
                ) in
              rw nz record {
                metered =
                    subst (λ k. Metered start since k (consume_tokens this.lb grant)) (sym more)
                      (consume_tokens-Metered start since (length (taken this.inner)) grant this.lb
                        (omega arith) p.metered);
                at_rate = ap ra.rate (rate-consume_tokens this.lb grant) ∙ p.at_rate;
              }
        ]

    ready_read-Paid :
        (r : Poll (Result ℕ)) (rem : List ℕ) (this : ThrottledReader T R Sleep) (buf : B) (cx : Cx)
        → ((n : ℕ)
            → n ≤ length rem
            → taken (br.consume this.inner n) ≡ taken this.inner ++ take n rem)
        → Granted r (length rem) this.lb
        → Paid taken start since rate this
        → Paid taken start since rate
            (ready_read r this buf cx (λ granted. read_granted granted rem this buf cx)).1
    ready_read-Paid pending rem this buf cx consumes g p = p
    ready_read-Paid (ready (ok granted)) rem this buf cx consumes g p =
        read_granted-Paid granted rem this buf cx consumes g.0 g.1 p
    ready_read-Paid (ready (err e)) rem this buf cx consumes g p = p
    ready_read-Paid (ready panic) rem this buf cx consumes g p = p
    ready_read-Paid (ready spin) rem this buf cx consumes g p = p

    module _ (pos : 0 < rate) where
      read_filled-Paid :
          (rem : List ℕ) (this : ThrottledReader T R Sleep) (buf : B) (cx : Cx)
          → ((n : ℕ)
              → n ≤ length rem
              → taken (br.consume this.inner n) ≡ taken this.inner ++ take n rem)
          → Paid taken start since rate this
          → Paid taken start since rate (read_filled rem this buf cx).1
      unfolding read_filled
      read_filled-Paid rem this buf cx consumes p =
          let (r, lb, cx') = poll_acquire this.lb cx (length rem) in
          let (m, g, same) =
            poll_acquire-Accounted start since (length (taken this.inner)) (length rem) this.lb cx
              (rw p.at_rate pos) p.metered in
          ready_read-Paid r rem (record this { lb = lb }) buf cx' consumes g
            (record { metered = m; at_rate = ap ra.rate same ∙ p.at_rate })

      -- The inner buffer was filled; `this` is the reader with the inner one as that left it.
      after_fill-Paid :
          (res : Poll (Result (List ℕ))) (inner : T) (this : ThrottledReader T R Sleep) (buf : B)
          (cx : Cx)
          → Fills taken br.consume res (taken this.inner) inner
          → Paid taken start since rate this
          → let this' = record this { inner = inner } in
            Paid taken start since rate
              (ready_read res this' buf cx (λ rem. read_filled rem this' buf cx)).1
      after_fill-Paid pending inner this buf cx f p =
          keep_taken taken start since rate this inner f p
      after_fill-Paid (ready (ok rem)) inner this buf cx f p =
          read_filled-Paid rem (record this { inner = inner }) buf cx
            (λ n short. f.1 n short ∙ ap (λ xs. xs ++ take n rem) (sym f.0))
            (keep_taken taken start since rate this inner f.0 p)
      after_fill-Paid (ready (err e)) inner this buf cx f p =
          keep_taken taken start since rate this inner f p
      after_fill-Paid (ready panic) inner this buf cx f p =
          keep_taken taken start since rate this inner f p
      after_fill-Paid (ready spin) inner this buf cx f p =
          keep_taken taken start since rate this inner f p

      module _ ⦃rd : AsyncRead Cx B T⦄ (steady : SteadyRate ra) (c : BufReadContract br taken) where
        Reads-Paid :
            {first t : ThrottledReader T R Sleep}
            → Paid taken start since rate first
            → Reads Cx B first t
            → Paid taken start since rate t
        unfolding poll_read
        Reads-Paid p created = p
        Reads-Paid p (read {t = t} before cx buf) =
            let so_far = Reads-Paid p before in
            let limited : ra.is_unlimited t.lb.rate ≡ false =
              rw (steady.unlimited_at_zero t.lb.rate) (ground (arith, so_far.at_rate)) in
            let (res, inner, cx') = br.poll_fill_buf t.inner cx in
            rw limited (after_fill-Paid res inner t buf cx' (c.fill_law t.inner cx) so_far)

module _ {Cx Sleep T R : Type 0} ⦃tm : Timer Cx Sleep⦄ ⦃ra : Rate R⦄ (taken : T → List ℕ) where
  new_reader-Paid :
      (inner : T) (rate : R) (cx : Cx)
      → let this : ThrottledReader T R Sleep = (new_reader inner rate cx).0 in
        Paid taken (length (taken inner) + ra.rate rate) (tm.now cx).0 (ra.rate rate) this
  unfolding new_reader
  new_reader-Paid inner rate cx = record {
    metered = new_bucket-Metered Sleep (length (taken inner)) rate cx;
    at_rate = ap ra.rate (rate-new_bucket Sleep rate cx);
  }

module _ {Cx Sleep T B R : Type 0} ⦃tm : Timer Cx Sleep⦄ ⦃ra : Rate R⦄ (steady : SteadyRate ra)
    ⦃br : AsyncBufRead Cx T⦄ ⦃rb : ReadBuf B⦄ ⦃rd : AsyncRead Cx B T⦄ {taken : T → List ℕ}
    (c : BufReadContract br taken) where
  -- A reader made over a buffered one that keeps its contract, at a fixed rate that is not 0, and
  -- then used for any reads: the bytes that it has taken off its stream since it was made are at
  -- most one second of the rate, and the rate times the clock's advance from then to the last refill
  -- of the bucket (times are in nanoseconds, so both sides are scaled by a second). The rate is
  -- a number or a knob, and is unlimited exactly if it is 0.
  pub taken_within_rate :
      (inner : T) (rate : R) (cx : Cx) {this : ThrottledReader T R Sleep}
      → 0 < ra.rate rate
      → Reads Cx B (new_reader inner rate cx).0 this
      → length (taken this.inner) * nanos_per_sec + ra.rate rate * (tm.now cx).0
        ≤ (length (taken inner) + ra.rate rate) * nanos_per_sec + ra.rate rate * this.lb.last_update
  taken_within_rate inner rate cx {this} pos reads =
      let first = new_reader-Paid taken inner rate cx in
      let p =
        Reads-Paid taken (length (taken inner) + ra.rate rate) (tm.now cx).0 (ra.rate rate) pos
          steady c first reads in
      within_rate p.metered p.at_rate

-- ===== src/Throttler/Writer/Budget.antt =====
-- tokio-netem/src/throttler.rs: the tokens that a throttled writer spends.
use trixter.Prelude.{
  ℕ, ◌+◌, ◌*◌, ◌≤◌, ◌<◌, ◌≡◌, sym, subst, ◌∙◌, ap, List, arith, length, take, length-take,
  length-append,
}
use trixter.Tokio.{
  Poll, pending, ready, Result, ok, err, panic, spin, Polled, ready_ok, AsyncWrite, Timer, Accepts,
  Keeps,
}
use trixter.Throttler.Knob.{Rate}
use trixter.Throttler.Bucket.{LeakyBucket, nanos_per_sec, poll_acquire, consume_tokens}
use trixter.Throttler.Bucket.Meter.{
  Metered, Granted, consume_tokens-Metered, poll_acquire-Accounted, rate-consume_tokens,
}
use trixter.Throttler.Writer.{ThrottledWriter, deduct}

-- The bytes sent are the tokens spent, and the rate is the one set.
pub record OnBudget {Sleep T R : Type 0} ⦃ra : Rate R⦄ (sent : T → List ℕ) (start since rate : ℕ)
    (this : ThrottledWriter T R Sleep) : Type 0 where
  pub metered : Metered start since (length (sent this.inner)) this.lb
  pub at_rate : ra.rate this.lb.rate ≡ rate

pub Keeps-same {ℓ} :
    {A : Type ℓ} (r : Poll (Result A)) {old new : List ℕ} → Keeps r old new → new ≡ old
Keeps-same pending k = k
Keeps-same (ready (ok a)) k = k
Keeps-same (ready (err e)) k = k
Keeps-same (ready panic) k = absurd k
Keeps-same (ready spin) k = k

pub within_rate :
    {Sleep R : Type 0} ⦃ra : Rate R⦄ {start since spent rate : ℕ} {this : LeakyBucket R Sleep}
    → Metered start since spent this
    → ra.rate this.rate ≡ rate
    → spent * nanos_per_sec + rate * since ≤ start * nanos_per_sec + rate * this.last_update
within_rate {start} {since} {spent} {rate} {this} m r =
    subst (λ k. spent * nanos_per_sec + k * since ≤ start * nanos_per_sec + k * this.last_update) r
      (omega (arith, m.within))

pub keep_sent :
    {Sleep T R : Type 0} ⦃ra : Rate R⦄ (sent : T → List ℕ) (start since rate : ℕ)
    (this : ThrottledWriter T R Sleep) (inner : T)
    → sent inner ≡ sent this.inner
    → OnBudget sent start since rate this
    → OnBudget sent start since rate (record this { inner = inner })
keep_sent sent start since rate this inner same b = record {
  metered = subst (λ k. Metered start since k this.lb) (ap length (sym same)) b.metered;
  at_rate = b.at_rate;
}

module _ {Cx Sleep T R : Type 0} ⦃tm : Timer Cx Sleep⦄ ⦃w : AsyncWrite Cx T⦄ ⦃ra : Rate R⦄
    (sent : T → List ℕ) (start since rate : ℕ) where
  pub deduct-OnBudget :
      (r : Poll (Result ℕ)) (inner : T) (cx : Cx) (this : ThrottledWriter T R Sleep)
      (chunk : List ℕ)
      → Accepts r chunk (sent this.inner) (sent inner)
      → length chunk ≤ this.lb.budget
      → OnBudget sent start since rate this
      → OnBudget sent start since rate (deduct (r, inner, cx) this).1
  unfolding deduct
  deduct-OnBudget (ready (ok n)) inner cx this chunk a fits b =
      let grown : length (sent inner) ≡ length (sent this.inner) + n = omega (
        arith,
        ap length a.1,
        length-append (sent this.inner) (take n chunk),
        length-take n chunk,
        a.0,
      ) in
      record {
        metered =
            subst (λ k. Metered start since k (consume_tokens this.lb n)) (sym grown)
              (consume_tokens-Metered start since (length (sent this.inner)) n this.lb
                (omega (arith, a.0)) b.metered);
        at_rate = ap ra.rate (rate-consume_tokens this.lb n) ∙ b.at_rate;
      }
  deduct-OnBudget pending inner cx this chunk a fits b =
      keep_sent sent start since rate this inner a b
  deduct-OnBudget (ready (err e)) inner cx this chunk a fits b =
      keep_sent sent start since rate this inner a b
  deduct-OnBudget (ready panic) inner cx this chunk a fits b = absurd a
  deduct-OnBudget (ready spin) inner cx this chunk a fits b =
      keep_sent sent start since rate this inner a b

  -- The bucket is polled; `k` goes on with a grant.
  pub acquired-OnBudget :
      (this : ThrottledWriter T R Sleep) (cx : Cx) (want : ℕ)
      (k : ℕ → ThrottledWriter T R Sleep → Cx → Polled ℕ (ThrottledWriter T R Sleep) Cx)
      → 0 < rate
      → OnBudget sent start since rate this
      → ((grant : ℕ) (t : ThrottledWriter T R Sleep) (cx' : Cx)
          → grant ≤ t.lb.budget
          → OnBudget sent start since rate t
          → OnBudget sent start since rate (k grant t cx').1)
      → let (r, lb, cx') = poll_acquire this.lb cx want in
        let this' = record this { lb = lb } in
        OnBudget sent start since rate (ready_ok r this' cx' (λ grant. k grant this' cx')).1
  acquired-OnBudget this cx want k pos b kk =
      let (r, lb, cx') = poll_acquire this.lb cx want in
      let (m, g, same) =
        poll_acquire-Accounted start since (length (sent this.inner)) want this.lb cx
          (rw b.at_rate pos) b.metered in
      go r lb cx' g (record { metered = m; at_rate = ap ra.rate same ∙ b.at_rate })
    where
      go :
          (r : Poll (Result ℕ)) (lb : LeakyBucket R Sleep) (cx' : Cx)
          → Granted r want lb
          → OnBudget sent start since rate (record this { lb = lb })
          → OnBudget sent start since rate
              (ready_ok r
                (record this { lb = lb })
                cx'
                (λ grant. k grant (record this { lb = lb }) cx')).1
      go pending lb cx' g b' = b'
      go (ready (ok grant)) lb cx' g b' = kk grant (record this { lb = lb }) cx' g.1 b'
      go (ready (err e)) lb cx' g b' = b'
      go (ready panic) lb cx' g b' = b'
      go (ready spin) lb cx' g b' = b'

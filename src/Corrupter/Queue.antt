-- ===== src/Corrupter/Queue.antt =====
-- tokio-netem/src/corrupter.rs: the noise that is queued before a write.
use trixter.Prelude.{
  ℕ, ◌≡◌, sym, inl, inr, Bool-cases, List, [], ◌++◌, refl, append-nil, Option, none, some,
  if◌then◌else◌,
}
use trixter.Tokio.{pending, ready, ok, err, panic, spin, AsyncWrite, Rng, WriteContract}
use trixter.Probability.{Probability}
use trixter.Drain.{Drained, drained, returned, drain}
use trixter.Tokio.Calls.{WriteContractOn, Ends, always}
use trixter.Drain.Passes.{inner_of, drain-holds}
use trixter.Drain.Sends.{left_in, Queued, QueuedOr, SendsOr, drain-Sends, real-Queued}
use trixter.Corrupter.{
  Corrupter, should_corrupt, random_data, write_drained, write_queued, write_from, poll_write,
}

-- The noise that a write finds or makes.
abbrev pub queue_of :
    {P G : Type 0} ⦃pr : Probability P⦄ ⦃rn : Rng G⦄ → Option (List ℕ) → G → P → List ℕ
queue_of (some write_buffer) rng prob = write_buffer
queue_of none rng prob =
    let (corrupt, rng') = should_corrupt rng prob in if corrupt then (random_data rng').0 else []

-- The noise that it makes.
abbrev pub made :
    {P G : Type 0} ⦃pr : Probability P⦄ ⦃rn : Rng G⦄ → Option (List ℕ) → G → P → List ℕ
made (some write_buffer) rng prob = []
made none rng prob = queue_of none rng prob

pub queue_of-made :
    {P G : Type 0} ⦃pr : Probability P⦄ ⦃rn : Rng G⦄ (write_buffer : Option (List ℕ)) (rng : G)
    (prob : P)
    → queue_of write_buffer rng prob ≡ left_in write_buffer ++ made write_buffer rng prob
queue_of-made (some write_buffer) rng prob = sym (append-nil write_buffer)
queue_of-made none rng prob = refl

module _ {Cx T : Type 0} ⦃w : AsyncWrite Cx T⦄ {Good : T → Type 0} {sent : T → List ℕ}
    (c : WriteContractOn w Good sent) (Spin : Type 0)
    (ends : (t : T) (cx : Cx) (buf : List ℕ) → (w.poll_write t cx buf).0 ≡ ready spin → Spin) where
  module _ {P G : Type 0} where
    write_drained-Queued :
        (d : Drained T Cx) (this : Corrupter T P G) (buf noise old : List ℕ)
        → SendsOr Spin sent d noise old
        → Good (inner_of d)
        → let (r, this', cx') = write_drained d this buf in
          QueuedOr Spin r buf noise (left_in this'.write_buffer) old (sent this'.inner)
    unfolding write_drained
    write_drained-Queued (drained inner cx) this buf noise old h g =
        let (r, inner', cx') = w.poll_write inner cx buf in
        real-Queued Spin r buf noise old (sent inner) (sent inner') (ends inner cx buf) h
          (c.write_law inner cx buf g)
    write_drained-Queued (returned pending inner left cx) this buf noise old h g = h
    write_drained-Queued (returned (ready (err e)) inner left cx) this buf noise old h g = h
    write_drained-Queued (returned (ready (ok n)) inner left cx) this buf noise old h g = absurd h
    write_drained-Queued (returned (ready panic) inner left cx) this buf noise old h g = h
    write_drained-Queued (returned (ready spin) inner left cx) this buf noise old h g = h

    write_queued-Queued :
        (noise : List ℕ) (this : Corrupter T P G) (cx : Cx) (buf : List ℕ)
        → Good this.inner
        → let (r, this', cx') = write_queued noise this cx buf in
          QueuedOr Spin r buf noise
            (left_in this'.write_buffer)
            (sent this.inner)
            (sent this'.inner)
    unfolding write_queued
    write_queued-Queued noise this cx buf g =
        write_drained-Queued (drain this.inner cx noise) this buf noise (sent this.inner)
          (drain-Sends c Spin ends this.inner cx noise g)
          (drain-holds c.keeps this.inner cx noise g)

    module _ ⦃pr : Probability P⦄ ⦃rn : Rng G⦄ where
      write_parts-Queued :
          (queued : Option (List ℕ)) (inner : T) (prob : P) (rng : G) (cx : Cx) (buf : List ℕ)
          → Good inner
          → let this : Corrupter T P G = record {
            inner = inner;
            prob = prob;
            rng = rng;
            write_buffer = queued;
          } in
            let (r, this', cx') = write_from queued this cx buf in
            QueuedOr Spin r buf
              (queue_of queued rng prob)
              (left_in this'.write_buffer)
              (sent inner)
              (sent this'.inner)
      unfolding write_from
      write_parts-Queued (some noise) inner prob rng cx buf g =
          write_queued-Queued noise
            (record { inner = inner; prob = prob; rng = rng; write_buffer = some noise }) cx buf g
      write_parts-Queued none inner prob rng cx buf g =
          let (corrupt, rng') = should_corrupt rng prob in
          let (noise, rng'') = random_data rng' in
          let (r, inner', cx') = w.poll_write inner cx buf in
          elim (Bool-cases corrupt) [
            | inl hit ↦ rw hit (
                write_queued-Queued noise
                  (record { inner = inner; prob = prob; rng = rng''; write_buffer = some noise }) cx
                  buf g)
            | inr miss ↦ rw miss (
                real-Queued Spin r buf [] (sent inner) (sent inner) (sent inner')
                  (ends inner cx buf) (sym (append-nil (sent inner))) (c.write_law inner cx buf g))
          ]

      pub corrupted_write-Queued :
          (this : Corrupter T P G) (cx : Cx) (buf : List ℕ)
          → Good this.inner
          → let (r, this', cx') = poll_write this cx buf in
            QueuedOr Spin r buf
              (queue_of this.write_buffer this.rng this.prob)
              (left_in this'.write_buffer)
              (sent this.inner)
              (sent this'.inner)
      unfolding poll_write
      corrupted_write-Queued this cx buf g =
          write_parts-Queued this.write_buffer this.inner this.prob this.rng cx buf g

module _ {Cx T P G : Type 0} ⦃w : AsyncWrite Cx T⦄ {sent : T → List ℕ} (c : WriteContract w sent)
    (live : Ends w) ⦃pr : Probability P⦄ ⦃rn : Rng G⦄ where
  -- A write through a corrupter whose inner writer keeps its contract and has loops that end. If
  -- it reports `n` bytes, what it sent is the whole noise that it found queued, or made now when
  -- the probability hit, and then exactly the first `n` bytes of the buffer, and no noise stays
  -- queued. Else no byte of the buffer was sent, and the noise sent and the noise left queued are
  -- in a row that noise. It neither panics nor loops for ever.
  pub poll_write-Queued :
      (this : Corrupter T P G) (cx : Cx) (buf : List ℕ)
      → let (r, this', cx') = poll_write this cx buf in
        Queued r buf
          (queue_of this.write_buffer this.rng this.prob)
          (left_in this'.write_buffer)
          (sent this.inner)
          (sent this'.inner)
  poll_write-Queued this cx buf = corrupted_write-Queued (always c) ⊥ live this cx buf tt

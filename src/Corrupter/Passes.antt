-- ===== src/Corrupter/Passes.antt =====
-- tokio-netem/src/corrupter.rs: what a corrupter leaves true of its inner object, noise included.
use trixter.Prelude.{ℕ, ◌≡◌, refl, inl, inr, List, Option, none, some, ltb, Bool-cases}
use trixter.Tokio.{AsyncWrite, AsyncRead, ReadBuf, Rng}
use trixter.Tokio.Calls.{Preserves, ReadPreserves}
use trixter.Probability.{Probability}
use trixter.Drain.{Drained, drained, returned, drain}
use trixter.Drain.Passes.{inner_of, drain-holds}
use trixter.Corrupter.{
  Corrupter, should_corrupt, random_data, write_drained, write_queued, write_from, poll_write,
  poll_read, corrupter_write, corrupter_read,
}

module _ {Cx T P G : Type 0} ⦃w : AsyncWrite Cx T⦄ {Q : T → Type 0} (keeps : Preserves w Q) where
  write_drained-holds :
      (d : Drained T Cx) (this : Corrupter T P G) (buf : List ℕ)
      → Q (inner_of d)
      → Q (write_drained d this buf).1.inner
  unfolding write_drained
  write_drained-holds (drained inner cx) this buf q = keeps.write inner cx buf q
  write_drained-holds (returned r inner left cx) this buf q = q

  write_queued-holds :
      (write_buffer : List ℕ) (this : Corrupter T P G) (cx : Cx) (buf : List ℕ)
      → Q this.inner
      → Q (write_queued write_buffer this cx buf).1.inner
  unfolding write_queued
  write_queued-holds write_buffer this cx buf q =
      write_drained-holds (drain this.inner cx write_buffer) this buf
        (drain-holds keeps this.inner cx write_buffer q)

  module _ ⦃pr : Probability P⦄ ⦃rn : Rng G⦄ where
    write_from-holds :
        (write_buffer : Option (List ℕ)) (this : Corrupter T P G) (cx : Cx) (buf : List ℕ)
        → Q this.inner
        → Q (write_from write_buffer this cx buf).1.inner
    unfolding write_from
    write_from-holds (some write_buffer) this cx buf q =
        write_queued-holds write_buffer this cx buf q
    write_from-holds none this cx buf q =
        let (corrupt, rng) = should_corrupt this.rng this.prob in
        let (noise, rng') = random_data rng in
        elim (Bool-cases corrupt) [
          | inl hit ↦ rw hit (
              write_queued-holds noise (record this { rng = rng'; write_buffer = some noise }) cx
                buf q)
          | inr miss ↦ rw miss (keeps.write this.inner cx buf q)
        ]

    pub corrupter_write-Preserves :
        Preserves (corrupter_write {Cx = Cx} {T = T} {P = P} {G = G}) (λ this. Q this.inner)
    unfolding poll_write
    corrupter_write-Preserves = record {
      write = λ this cx buf q. write_from-holds this.write_buffer this cx buf q;
      write_vectored = λ this cx bufs q. keeps.write_vectored this.inner cx bufs q;
      flush = λ this cx q. keeps.flush this.inner cx q;
      shutdown = λ this cx q. keeps.shutdown this.inner cx q;
    }

module _ {Cx B T P G : Type 0} ⦃pr : Probability P⦄ ⦃rn : Rng G⦄ ⦃rb : ReadBuf B⦄
    ⦃r : AsyncRead Cx B T⦄ {Q : T → Type 0} where
  pub corrupter_read-Preserves :
      ReadPreserves r Q
      → ReadPreserves
          (corrupter_read {Cx = Cx} {T = T} {P = P} {G = G} {B = B})
          (λ this. Q this.inner)
  unfolding poll_read
  corrupter_read-Preserves keeps = record {
    read = λ this cx buf q. elim (Bool-cases (should_corrupt this.rng this.prob).0) [
      | inl hit ↦ rw hit (elim (Bool-cases (ltb 0 (rb.remaining buf))) [
        | inl room ↦ rw room q
        | inr full ↦ rw full q
      ])
      | inr miss ↦ rw miss (keeps.read this.inner cx buf q)
    ];
  }

module _ {Cx B T P G : Type 0} ⦃pr : Probability P⦄ ⦃rn : Rng G⦄ ⦃rb : ReadBuf B⦄
    ⦃r : AsyncRead Cx B T⦄ where
  -- Nor does a read touch the queue.
  pub write_buffer-poll_read :
      (this : Corrupter T P G) (cx : Cx) (buf : B)
      → (poll_read this cx buf).1.write_buffer ≡ this.write_buffer
  unfolding poll_read
  write_buffer-poll_read this cx buf = elim (Bool-cases (should_corrupt this.rng this.prob).0) [
    | inl hit ↦ rw hit (elim (Bool-cases (ltb 0 (rb.remaining buf))) [
      | inl room ↦ rw room refl
      | inr full ↦ rw full refl
    ])
    | inr miss ↦ rw miss refl
  ]

-- ===== src/Terminator/Passes.antt =====
-- tokio-netem/src/terminator.rs: what a terminator leaves true of its inner object.
use trixter.Prelude.{inl, inr, Bool-cases}
use trixter.Tokio.{Polled, AsyncWrite, AsyncRead, Rng}
use trixter.Tokio.Calls.{Preserves, ReadPreserves}
use trixter.Probability.{Probability, try_trigger}
use trixter.Terminator.{Terminator, unless_triggered, poll_read, terminator_write, terminator_read}

module _ {Cx T P G : Type 0} ⦃pr : Probability P⦄ ⦃rn : Rng G⦄ {Q : T → Type 0} where
  unless_triggered-holds :
      {A : Type 0} (f : T → Cx → Polled A T Cx)
      → ((t : T) (cx : Cx) → Q t → Q (f t cx).1)
      → (this : Terminator T P G) (cx : Cx) → Q this.inner
      → Q (unless_triggered f this cx).1.inner
  unfolding unless_triggered
  unless_triggered-holds f keeps this cx q =
      elim (Bool-cases (try_trigger this.triggered this.rng this.prob).0) [
        | inl hit ↦ rw hit q
        | inr miss ↦ rw miss (keeps this.inner cx q)
      ]

  pub terminator_write-Preserves :
      ⦃w : AsyncWrite Cx T⦄
      → Preserves w Q
      → Preserves (terminator_write {Cx = Cx} {T = T} {P = P} {G = G}) (λ this. Q this.inner)
  terminator_write-Preserves ⦃w⦄ keeps = record {
    write = λ this cx buf q.
        unless_triggered-holds (λ inner cx'. w.poll_write inner cx' buf)
          (λ t cx'. keeps.write t cx' buf) this cx q;
    write_vectored = λ this cx bufs q.
        unless_triggered-holds (λ inner cx'. w.poll_write_vectored inner cx' bufs)
          (λ t cx'. keeps.write_vectored t cx' bufs) this cx q;
    flush = λ this cx q. unless_triggered-holds w.poll_flush keeps.flush this cx q;
    shutdown = λ this cx q. unless_triggered-holds w.poll_shutdown keeps.shutdown this cx q;
  }

  pub terminator_read-Preserves :
      {B : Type 0} ⦃r : AsyncRead Cx B T⦄
      → ReadPreserves r Q
      → ReadPreserves
          (terminator_read {Cx = Cx} {T = T} {P = P} {G = G} {B = B})
          (λ this. Q this.inner)
  unfolding poll_read
  terminator_read-Preserves keeps = record {
    read = λ this cx buf q. elim (Bool-cases (try_trigger this.triggered this.rng this.prob).0) [
      | inl hit ↦ rw hit q
      | inr miss ↦ rw miss (keeps.read this.inner cx buf q)
    ];
  }

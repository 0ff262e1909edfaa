-- ===== src/Terminator/Contract.antt =====
-- tokio-netem/src/terminator.rs: a terminator keeps the promises of a writer.
use trixter.Prelude.{ℕ, refl, sym, List, [], append-nil, inl, inr, Bool-cases, concat}
use trixter.Tokio.{
  Polled, AsyncWrite, AsyncRead, ReadBuf, Rng, WriteContract, ReadContract, Accepts, Keeps,
}
use trixter.Tokio.Calls.{WriteContractOn}
use trixter.Probability.{Probability, try_trigger}
use trixter.Terminator.Passes.{terminator_write-Preserves}
use trixter.Terminator.{Terminator, unless_triggered, poll_read, terminator_write, terminator_read}

module _ {Cx T P G : Type 0} ⦃pr : Probability P⦄ ⦃rn : Rng G⦄ (sent : T → List ℕ) where
  unless_triggered-Accepts :
      (f : T → Cx → Polled ℕ T Cx) (this : Terminator T P G) (cx : Cx) (buf : List ℕ)
      → Accepts (f this.inner cx).0 buf (sent this.inner) (sent (f this.inner cx).1)
      → let (r, this', cx') = unless_triggered f this cx in
        Accepts r buf (sent this.inner) (sent this'.inner)
  unfolding unless_triggered
  unless_triggered-Accepts f this cx buf a =
      elim (Bool-cases (try_trigger this.triggered this.rng this.prob).0) [
        | inl hit ↦ rw hit refl
        | inr miss ↦ rw miss a
      ]

  unless_triggered-Keeps :
      (f : T → Cx → Polled (Unit {0}) T Cx) (this : Terminator T P G) (cx : Cx)
      → Keeps (f this.inner cx).0 (sent this.inner) (sent (f this.inner cx).1)
      → let (r, this', cx') = unless_triggered f this cx in
        Keeps r (sent this.inner) (sent this'.inner)
  unfolding unless_triggered
  unless_triggered-Keeps f this cx a =
      elim (Bool-cases (try_trigger this.triggered this.rng this.prob).0) [
        | inl hit ↦ rw hit refl
        | inr miss ↦ rw miss a
      ]

  -- Over an inner writer that keeps the contract of `AsyncWrite` for the bytes that it has sent, a
  -- terminator keeps it for the same bytes, at every probability and whenever it triggers.
  pub terminator_write-WriteContract :
      ⦃w : AsyncWrite Cx T⦄
      → WriteContract w sent
      → WriteContract (terminator_write {Cx = Cx} {T = T} {P = P} {G = G}) (λ this. sent this.inner)
  terminator_write-WriteContract ⦃w⦄ c = record {
    write_law = λ this cx buf.
        unless_triggered-Accepts (λ inner cx'. w.poll_write inner cx' buf) this cx buf
          (c.write_law this.inner cx buf);
    flush_law = λ this cx. unless_triggered-Keeps w.poll_flush this cx (c.flush_law this.inner cx);
    shutdown_law =
        λ this cx. unless_triggered-Keeps w.poll_shutdown this cx (c.shutdown_law this.inner cx);
    vectored_law = λ this cx bufs.
        unless_triggered-Accepts (λ inner cx'. w.poll_write_vectored inner cx' bufs) this cx
          (concat bufs) (c.vectored_law this.inner cx bufs);
  }

  -- The same over an inner writer that keeps it in some states.
  pub terminator_write-WriteContractOn :
      {Good : T → Type 0} ⦃w : AsyncWrite Cx T⦄
      → WriteContractOn w Good sent
      → WriteContractOn
          (terminator_write {Cx = Cx} {T = T} {P = P} {G = G})
          (λ this. Good this.inner)
          (λ this. sent this.inner)
  terminator_write-WriteContractOn ⦃w⦄ c = record {
    keeps = terminator_write-Preserves c.keeps;
    write_law = λ this cx buf g.
        unless_triggered-Accepts (λ inner cx'. w.poll_write inner cx' buf) this cx buf
          (c.write_law this.inner cx buf g);
    flush_law =
        λ this cx g. unless_triggered-Keeps w.poll_flush this cx (c.flush_law this.inner cx g);
    shutdown_law = λ this cx g.
        unless_triggered-Keeps w.poll_shutdown this cx (c.shutdown_law this.inner cx g);
    vectored_law = λ this cx bufs g.
        unless_triggered-Accepts (λ inner cx'. w.poll_write_vectored inner cx' bufs) this cx
          (concat bufs) (c.vectored_law this.inner cx bufs g);
  }

module _ {Cx B T P G : Type 0} ⦃pr : Probability P⦄ ⦃rn : Rng G⦄ ⦃rb : ReadBuf B⦄
    ⦃r : AsyncRead Cx B T⦄ {given : T → List ℕ} where
  -- A read hands over what the inner reader gives, or nothing.
  pub terminator_read-ReadContract :
      ReadContract rb r given
      → ReadContract rb
          (terminator_read {Cx = Cx} {T = T} {P = P} {G = G} {B = B})
          (λ this. given this.inner)
  unfolding poll_read
  terminator_read-ReadContract c = record {
    read_law = λ this cx buf. elim (Bool-cases (try_trigger this.triggered this.rng this.prob).0) [
      | inl hit ↦ rw hit (record {
        chunk = [];
        taken = sym (append-nil (given this.inner));
        put = sym (append-nil (rb.filled buf));
      })
      | inr miss ↦ rw miss (c.read_law this.inner cx buf)
    ];
  }

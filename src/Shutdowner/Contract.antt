-- ===== src/Shutdowner/Contract.antt =====
-- tokio-netem/src/shutdowner.rs: a shutdowner keeps the promises of a writer.
use trixter.Prelude.{ℕ, refl, List, concat, Option, none, some}
use trixter.Tokio.{
  Poll, pending, ready, Payload, Polled, AsyncWrite, Receiver, WriteContract, Accepts, Keeps,
}
use trixter.Io.{forward}
use trixter.Shutdowner.{
  Shutdowner, put_inner, received, poll_receiver_of, poll_error, unless_error, unless_tripped,
  shutdowner_write,
}

module _ {Cx T Rx : Type 0} (sent : T → List ℕ) where
  received-Accepts :
      (f : T → Cx → Polled ℕ T Cx) (this : Shutdowner T Rx) (p : Poll (Option Payload)) (rx : Rx)
      (cx : Cx) (buf : List ℕ)
      → ((cx' : Cx)
          → Accepts (f this.inner cx').0 buf (sent this.inner) (sent (f this.inner cx').1))
      → let (r, this', cx'') =
          unless_error
            (received this (p, rx, cx))
            (λ this' cx'. forward (put_inner this') (f this'.inner cx')) in
        Accepts r buf (sent this.inner) (sent this'.inner)
  received-Accepts f this (ready (some e)) rx cx buf a = refl
  received-Accepts f this (ready none) rx cx buf a = refl
  received-Accepts f this pending rx cx buf a = a cx

  received-Keeps :
      (f : T → Cx → Polled (Unit {0}) T Cx) (this : Shutdowner T Rx) (p : Poll (Option Payload))
      (rx : Rx) (cx : Cx)
      → ((cx' : Cx) → Keeps (f this.inner cx').0 (sent this.inner) (sent (f this.inner cx').1))
      → let (r, this', cx'') =
          unless_error
            (received this (p, rx, cx))
            (λ this' cx'. forward (put_inner this') (f this'.inner cx')) in
        Keeps r (sent this.inner) (sent this'.inner)
  received-Keeps f this (ready (some e)) rx cx a = refl
  received-Keeps f this (ready none) rx cx a = refl
  received-Keeps f this pending rx cx a = a cx

  module _ ⦃rc : Receiver Cx Rx⦄ where
    polled-Accepts :
        (f : T → Cx → Polled ℕ T Cx) (err_rx : Option Rx) (this : Shutdowner T Rx) (cx : Cx)
        (buf : List ℕ)
        → ((cx' : Cx)
            → Accepts (f this.inner cx').0 buf (sent this.inner) (sent (f this.inner cx').1))
        → let (r, this', cx'') =
            unless_error
              (poll_receiver_of err_rx this cx)
              (λ this' cx'. forward (put_inner this') (f this'.inner cx')) in
          Accepts r buf (sent this.inner) (sent this'.inner)
    polled-Accepts f none this cx buf a = refl
    polled-Accepts f (some rx) this cx buf a =
        let (p, rx', cx') = rc.poll_receiver rx cx in received-Accepts f this p rx' cx' buf a

    polled-Keeps :
        (f : T → Cx → Polled (Unit {0}) T Cx) (err_rx : Option Rx) (this : Shutdowner T Rx)
        (cx : Cx)
        → ((cx' : Cx) → Keeps (f this.inner cx').0 (sent this.inner) (sent (f this.inner cx').1))
        → let (r, this', cx'') =
            unless_error
              (poll_receiver_of err_rx this cx)
              (λ this' cx'. forward (put_inner this') (f this'.inner cx')) in
          Keeps r (sent this.inner) (sent this'.inner)
    polled-Keeps f none this cx a = refl
    polled-Keeps f (some rx) this cx a =
        let (p, rx', cx') = rc.poll_receiver rx cx in received-Keeps f this p rx' cx' a

    unless_tripped-Accepts :
        (f : T → Cx → Polled ℕ T Cx) (this : Shutdowner T Rx) (cx : Cx) (buf : List ℕ)
        → ((cx' : Cx)
            → Accepts (f this.inner cx').0 buf (sent this.inner) (sent (f this.inner cx').1))
        → Accepts
            (unless_tripped f this cx).0
            buf
            (sent this.inner)
            (sent (unless_tripped f this cx).1.inner)
    unfolding unless_tripped poll_error
    unless_tripped-Accepts f this cx buf a = polled-Accepts f this.err_rx this cx buf a

    unless_tripped-Keeps :
        (f : T → Cx → Polled (Unit {0}) T Cx) (this : Shutdowner T Rx) (cx : Cx)
        → ((cx' : Cx) → Keeps (f this.inner cx').0 (sent this.inner) (sent (f this.inner cx').1))
        → Keeps
            (unless_tripped f this cx).0
            (sent this.inner)
            (sent (unless_tripped f this cx).1.inner)
    unfolding unless_tripped poll_error
    unless_tripped-Keeps f this cx a = polled-Keeps f this.err_rx this cx a

    -- Over an inner writer that keeps the contract of `AsyncWrite` for the bytes that it has sent, a
    -- shutdowner keeps it for the same bytes, whatever the receiver has and in every state.
    pub shutdowner_write-WriteContract :
        ⦃w : AsyncWrite Cx T⦄
        → WriteContract w sent
        → WriteContract (shutdowner_write {Cx = Cx} {T = T} {Rx = Rx}) (λ this. sent this.inner)
    shutdowner_write-WriteContract ⦃w⦄ c = record {
      write_law = λ this cx buf.
          unless_tripped-Accepts (λ inner cx'. w.poll_write inner cx' buf) this cx buf
            (λ cx'. c.write_law this.inner cx' buf);
      flush_law = λ this cx. unless_tripped-Keeps w.poll_flush this cx (c.flush_law this.inner);
      shutdown_law =
          λ this cx. unless_tripped-Keeps w.poll_shutdown this cx (c.shutdown_law this.inner);
      vectored_law = λ this cx bufs.
          unless_tripped-Accepts (λ inner cx'. w.poll_write_vectored inner cx' bufs) this cx
            (concat bufs) (λ cx'. c.vectored_law this.inner cx' bufs);
    }

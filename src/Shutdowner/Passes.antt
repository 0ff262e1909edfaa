-- ===== src/Shutdowner/Passes.antt =====
-- tokio-netem/src/shutdowner.rs: what a shutdowner leaves true of its inner object.
use trixter.Prelude.{Bool, true, false, Option, none, some}
use trixter.Tokio.{
  Poll, pending, ready, Result, ok, err, panic, spin, IoError, Payload, other, Polled, PolledRead,
  AsyncWrite, AsyncRead, Receiver,
}
use trixter.Tokio.Calls.{Preserves, ReadPreserves}
use trixter.Io.{forward}
use trixter.Shutdowner.{
  Shutdowner, put_inner, shut_down, received, poll_receiver_of, unless_error, unless_error_read,
  poll_error, unless_tripped, poll_read, shutdowner_write, shutdowner_read,
}

module _ {Cx T : Type 0} (Q : T → Type 0) where
  unless_error-holds :
      {A : Type 0} (r : Poll (Result (Unit {0}))) (t : T) (cx : Cx) (k : T → Cx → Polled A T Cx)
      → Q t
      → ((t' : T) (cx' : Cx) → Q t' → Q (k t' cx').1)
      → Q (unless_error (r, t, cx) k).1
  unless_error-holds pending t cx k q keeps = keeps t cx q
  unless_error-holds (ready (ok u)) t cx k q keeps = keeps t cx q
  unless_error-holds (ready (err e)) t cx k q keeps = q
  unless_error-holds (ready panic) t cx k q keeps = q
  unless_error-holds (ready spin) t cx k q keeps = q

  unless_error_read-holds :
      {B : Type 0} (r : Poll (Result (Unit {0}))) (t : T) (cx : Cx) (buf : B)
      (k : T → Cx → PolledRead T B Cx)
      → Q t
      → ((t' : T) (cx' : Cx) → Q t' → Q (k t' cx').1)
      → Q (unless_error_read (r, t, cx) buf k).1
  unless_error_read-holds pending t cx buf k q keeps = keeps t cx q
  unless_error_read-holds (ready (ok u)) t cx buf k q keeps = keeps t cx q
  unless_error_read-holds (ready (err e)) t cx buf k q keeps = q
  unless_error_read-holds (ready panic) t cx buf k q keeps = q
  unless_error_read-holds (ready spin) t cx buf k q keeps = q

module _ {Cx T Rx : Type 0} (Q : T → Type 0) where
  received-holds :
      (this : Shutdowner T Rx) (answer : Poll (Option Payload)) (rx : Rx) (cx : Cx)
      → Q this.inner
      → Q (received this (answer, rx, cx)).1.inner
  received-holds this pending rx cx q = q
  received-holds this (ready none) rx cx q = q
  received-holds this (ready (some e)) rx cx q = q

  poll_receiver_of-holds :
      ⦃rc : Receiver Cx Rx⦄ (rx : Option Rx) (this : Shutdowner T Rx) (cx : Cx)
      → Q this.inner
      → Q (poll_receiver_of rx this cx).1.inner
  poll_receiver_of-holds none this cx q = q
  poll_receiver_of-holds ⦃rc⦄ (some rx) this cx q =
      let (answer, rx', cx') = rc.poll_receiver rx cx in received-holds this answer rx' cx' q

module _ {Cx T Rx : Type 0} ⦃rc : Receiver Cx Rx⦄ {Q : T → Type 0} where
  unless_tripped-holds :
      {A : Type 0} (f : T → Cx → Polled A T Cx)
      → ((t : T) (cx : Cx) → Q t → Q (f t cx).1)
      → (this : Shutdowner T Rx) (cx : Cx) → Q this.inner
      → Q (unless_tripped f this cx).1.inner
  unfolding unless_tripped poll_error
  unless_tripped-holds f keeps this cx q =
      let (r, this', cx') = poll_receiver_of this.err_rx this cx in
      unless_error-holds (λ (t : Shutdowner T Rx). Q t.inner) r this' cx' _
        (poll_receiver_of-holds Q this.err_rx this cx q) (λ t cx'' q'. keeps t.inner cx'' q')

  pub shutdowner_write-Preserves :
      ⦃w : AsyncWrite Cx T⦄
      → Preserves w Q
      → Preserves (shutdowner_write {Cx = Cx} {T = T} {Rx = Rx}) (λ this. Q this.inner)
  shutdowner_write-Preserves ⦃w⦄ keeps = record {
    write = λ this cx buf q.
        unless_tripped-holds (λ inner cx'. w.poll_write inner cx' buf)
          (λ t cx'. keeps.write t cx' buf) this cx q;
    write_vectored = λ this cx bufs q.
        unless_tripped-holds (λ inner cx'. w.poll_write_vectored inner cx' bufs)
          (λ t cx'. keeps.write_vectored t cx' bufs) this cx q;
    flush = λ this cx q. unless_tripped-holds w.poll_flush keeps.flush this cx q;
    shutdown = λ this cx q. unless_tripped-holds w.poll_shutdown keeps.shutdown this cx q;
  }

  pub shutdowner_read-Preserves :
      {B : Type 0} ⦃r : AsyncRead Cx B T⦄
      → ReadPreserves r Q
      → ReadPreserves (shutdowner_read {Cx = Cx} {T = T} {Rx = Rx} {B = B}) (λ this. Q this.inner)
  unfolding poll_read poll_error
  shutdowner_read-Preserves keeps = record {
    read = λ this cx buf q.
        let (r, this', cx') = poll_receiver_of this.err_rx this cx in
        unless_error_read-holds (λ (t : Shutdowner T Rx). Q t.inner) r this' cx' buf _
          (poll_receiver_of-holds Q this.err_rx this cx q)
          (λ t cx'' q'. keeps.read t.inner cx'' buf q');
  }

-- Whether an operation goes on after `poll_error`.
abbrev pub passes : Poll (Result (Unit {0})) → Bool
passes pending = true
passes (ready r) = false

-- An operation fails without a call of the inner object, or makes the call at some time.
module _ {Cx T A : Type 0} (f : T → Cx → Polled A T Cx)
    (R : Bool → Poll (Result A) → T → Type 0) where
  received_cases :
      {Rx : Type 0} (this : Shutdowner T Rx) (answer : Poll (Option Payload)) (rx : Rx) (cx : Cx)
      → ((e : IoError) → R false (ready (err e)) this.inner)
      → ((cx' : Cx) → R true (f this.inner cx').0 (f this.inner cx').1)
      → let polled = received this (answer, rx, cx) in
        let (r, this', cx') =
          unless_error polled (λ t cx'. forward (put_inner t) (f t.inner cx')) in
        R (passes polled.0) r this'.inner
  received_cases this pending rx cx fails calls = calls cx
  received_cases this (ready none) rx cx fails calls = fails shut_down
  received_cases this (ready (some e)) rx cx fails calls = fails (other e)

  receiver_of_cases :
      {Rx : Type 0} ⦃rc : Receiver Cx Rx⦄ (rx : Option Rx) (this : Shutdowner T Rx) (cx : Cx)
      → ((e : IoError) → R false (ready (err e)) this.inner)
      → ((cx' : Cx) → R true (f this.inner cx').0 (f this.inner cx').1)
      → let polled = poll_receiver_of rx this cx in
        let (r, this', cx') =
          unless_error polled (λ t cx'. forward (put_inner t) (f t.inner cx')) in
        R (passes polled.0) r this'.inner
  receiver_of_cases none this cx fails calls = fails shut_down
  receiver_of_cases ⦃rc⦄ (some rx) this cx fails calls =
      let (answer, rx', cx') = rc.poll_receiver rx cx in
      received_cases this answer rx' cx' fails calls

  pub unless_tripped_cases :
      {Rx : Type 0} ⦃rc : Receiver Cx Rx⦄ (this : Shutdowner T Rx) (cx : Cx)
      → ((e : IoError) → R false (ready (err e)) this.inner)
      → ((cx' : Cx) → R true (f this.inner cx').0 (f this.inner cx').1)
      → let (r, this', cx') = unless_tripped f this cx in
        R (passes (poll_error this cx).0) r this'.inner
  unfolding unless_tripped poll_error
  unless_tripped_cases this cx fails calls = receiver_of_cases this.err_rx this cx fails calls

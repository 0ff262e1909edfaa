-- ===== src/Delayer/Writer/Passes.antt =====
-- tokio-netem/src/delayer.rs: what a delayed writer leaves true of its inner object.
use trixter.Tokio.{Polled, AsyncWrite, AsyncRead, Timer}
use trixter.Tokio.Calls.{Preserves, ReadPreserves}
use trixter.Delayer.Knob.{Duration}
use trixter.Delayer.Writer.{
  DelayedWriter, poll_with_write_delay, delayed_write, delayed_writer_read,
}
use trixter.Delayer.Writer.Contract.{poll_with_write_delay-keeps}

module _ {Cx Sleep T D : Type 0} ⦃tm : Timer Cx Sleep⦄ ⦃du : Duration D⦄ {P : T → Type 0} where
  poll_with_write_delay-holds :
      {A : Type 0} (f : T → Cx → Polled A T Cx)
      → ((t : T) (cx : Cx) → P t → P (f t cx).1)
      → (this : DelayedWriter T D Sleep) (cx : Cx) → P this.inner
      → P (poll_with_write_delay f this cx).1.inner
  poll_with_write_delay-holds f keeps this cx p =
      poll_with_write_delay-keeps f (λ r old new. P old → P new) (λ t q. q) keeps this cx p

  pub delayed_write-Preserves :
      ⦃w : AsyncWrite Cx T⦄
      → Preserves w P
      → Preserves (delayed_write {Cx = Cx} {Sleep = Sleep} {T = T} {D = D}) (λ this. P this.inner)
  delayed_write-Preserves ⦃w⦄ keeps = record {
    write = λ this cx buf p.
        poll_with_write_delay-holds (λ inner cx'. w.poll_write inner cx' buf)
          (λ t cx'. keeps.write t cx' buf) this cx p;
    write_vectored = λ this cx bufs p.
        poll_with_write_delay-holds (λ inner cx'. w.poll_write_vectored inner cx' bufs)
          (λ t cx'. keeps.write_vectored t cx' bufs) this cx p;
    flush = λ this cx p. keeps.flush this.inner cx p;
    shutdown = λ this cx p. poll_with_write_delay-holds w.poll_shutdown keeps.shutdown this cx p;
  }

module _ {Cx B Sleep T D : Type 0} {P : T → Type 0} where
  pub delayed_writer_read-Preserves :
      ⦃r : AsyncRead Cx B T⦄
      → ReadPreserves r P
      → ReadPreserves
          (delayed_writer_read {Cx = Cx} {B = B} {T = T} {D = D} {Sleep = Sleep})
          (λ this. P this.inner)
  delayed_writer_read-Preserves keeps = record {
    read = λ this cx buf p. keeps.read this.inner cx buf p;
  }

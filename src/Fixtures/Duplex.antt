-- ===== src/Fixtures/Duplex.antt =====
-- A socket with two directions: what is written goes to a tape, what is read comes from another.
use trixter.Prelude.{ℕ, ◌-◌, ◌≡◌, refl, List, ◌++◌, length, take, drop}
use trixter.Tokio.{ready, ok, AsyncWrite, AsyncRead, WriteContract}
use trixter.Io.{inner_write}
use trixter.Fixtures.{Tape, tape, tape_contract, on_tape, Page}

pub record Duplex : Type 0 where
  pub outgoing : Tape
  pub incoming : List ℕ

abbrev put_outgoing : Duplex → Tape → Duplex
put_outgoing d t = record d { outgoing = t }

instance abbrev pub duplex_write : AsyncWrite ℕ Duplex
duplex_write = inner_write (λ d. d.outgoing) put_outgoing

instance abbrev pub duplex_read : AsyncRead ℕ Page Duplex
duplex_read = record {
  poll_read = λ d cx b.
      let xs = take b.room d.incoming in
      (
        ready (ok tt),
        record d { incoming = drop b.room d.incoming },
        record { room = b.room - length xs; text = b.text ++ xs },
        cx,
      );
}

abbrev pub sent_out : Duplex → List ℕ
sent_out d = on_tape d.outgoing

pub duplex_contract : WriteContract duplex_write sent_out
duplex_contract = record {
  write_law = λ d cx buf. tape_contract.write_law d.outgoing cx buf;
  flush_law = λ d cx. tape_contract.flush_law d.outgoing cx;
  shutdown_law = λ d cx. tape_contract.shutdown_law d.outgoing cx;
  vectored_law = λ d cx bufs. tape_contract.vectored_law d.outgoing cx bufs;
}

pub reads_silent :
    (d : Duplex) (cx : ℕ) (b : Page) → sent_out (duplex_read.poll_read d cx b).1 ≡ sent_out d
reads_silent d cx b = refl

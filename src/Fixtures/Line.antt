-- ===== src/Fixtures/Line.antt =====
-- A socket that takes at most three bytes a call, and whose flush is over at once.
use trixter.Prelude.{ℕ, min, ◌≡◌, refl, true, arith, List, ◌++◌, length, take, drop, concat}
use trixter.Tokio.{ready, ok, AsyncWrite, AsyncRead, WriteContract, ReadContract}
use trixter.Tokio.Calls.{Preserves}
use trixter.Fixtures.{Page, page}

pub record Line : Type 0 where
  pub outgoing : List ℕ
  pub incoming : List ℕ
  pub gone : List ℕ

abbrev accepted : List ℕ → ℕ
accepted buf = min (length buf) 3

abbrev put : Line → List ℕ → Line
put line buf = record line { outgoing = line.outgoing ++ take (accepted buf) buf }

instance abbrev pub line_write : AsyncWrite ℕ Line
line_write = record {
  poll_write = λ line cx buf. (ready (ok (accepted buf)), put line buf, cx);
  poll_flush = λ line cx. (ready (ok tt), line, cx);
  poll_shutdown = λ line cx. (ready (ok tt), line, cx);
  is_write_vectored = λ line. true;
  poll_write_vectored =
      λ line cx bufs. (ready (ok (accepted (concat bufs))), put line (concat bufs), cx);
}

instance abbrev pub line_read : AsyncRead ℕ Page Line
line_read = record {
  poll_read = λ line cx b.
      let xs = take b.room line.incoming in
      (
        ready (ok tt),
        record line { incoming = drop b.room line.incoming; gone = line.gone ++ xs },
        page.put_slice b xs,
        cx,
      );
}

abbrev pub sent_on : Line → List ℕ
sent_on line = line.outgoing

pub line_contract : WriteContract line_write sent_on
line_contract = record {
  write_law = λ line cx buf. (omega arith, refl);
  flush_law = λ line cx. refl;
  shutdown_law = λ line cx. refl;
  vectored_law = λ line cx bufs. (omega arith, refl);
}

pub line_prompt : (line : Line) (cx : ℕ) → (line_write.poll_flush line cx).0 ≡ ready (ok tt)
line_prompt line cx = refl

pub line_silent :
    (line : Line) (cx : ℕ) (b : Page) → sent_on (line_read.poll_read line cx b).1 ≡ sent_on line
line_silent line cx b = refl

abbrev pub gone_off : Line → List ℕ
gone_off line = line.gone

pub line_gives : ReadContract page line_read gone_off
line_gives = record {
  read_law = λ line cx b. record { chunk = take b.room line.incoming; taken = refl; put = refl };
}

pub line_quiet : (taken : List ℕ) → Preserves line_write (λ line. gone_off line ≡ taken)
line_quiet taken = record {
  write = λ line cx buf same. same;
  write_vectored = λ line cx bufs same. same;
  flush = λ line cx same. same;
  shutdown = λ line cx same. same;
}

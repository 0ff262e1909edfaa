-- ===== src/Fixtures/Inbox.antt =====
-- A concrete channel and a stream that gives out its bytes, for the examples.
use trixter.Prelude.{ℕ, suc, zero, refl, List, [], ◌∷◌, ◌++◌, Option, none, some, arith, take, drop}
use trixter.Tokio.{
  Poll, pending, ready, ok, Channel, ChannelLaws, Receives, AsyncRead, ReadContract, AsyncBufRead,
  BufReadContract,
}
use trixter.Fixtures.{Page, page, tape}

-- The messages that are queued, and the bytes of those given out. The task may receive as many
-- messages as its clock shows.
pub record Inbox : Type 0 where
  pub taken : List ℕ
  pub queue : List (List ℕ)

abbrev poll_inbox : List (List ℕ) → List ℕ → ℕ → Poll (Option (List ℕ)) × Inbox × ℕ
poll_inbox [] taken cx = (ready none, record { taken = taken; queue = [] }, cx)
poll_inbox (m ∷ ms) taken zero = (pending, record { taken = taken; queue = m ∷ ms }, zero)
poll_inbox (m ∷ ms) taken (suc cx) = (ready (some m), record { taken = taken ++ m; queue = ms }, cx)

instance abbrev pub inbox : Channel ℕ Inbox
inbox = record { poll_recv = λ rx cx. poll_inbox rx.queue rx.taken cx }

abbrev pub taken_of : Inbox → List ℕ
taken_of rx = rx.taken

abbrev pub messages_left : ℕ → ℕ
messages_left cx = cx

poll_inbox-Receives :
    (queue : List (List ℕ)) (taken : List ℕ) (cx : ℕ)
    → let (message, rx, cx') = poll_inbox queue taken cx in Receives message taken rx.taken cx cx'
poll_inbox-Receives [] taken cx = (refl, omega arith)
poll_inbox-Receives (m ∷ ms) taken zero = (refl, omega arith)
poll_inbox-Receives (m ∷ ms) taken (suc cx) = (refl, omega arith)

pub inbox_laws : ChannelLaws inbox taken_of messages_left
inbox_laws = record { recv_law = λ rx cx. poll_inbox-Receives rx.queue rx.taken cx }

-- A stream by what it has given out and what it has to come; a read takes what fits.
pub record Source : Type 0 where
  pub gone : List ℕ
  pub to_come : List ℕ

instance abbrev pub source_read : AsyncRead ℕ Page Source
source_read = record {
  poll_read = λ t cx b.
      let xs = take b.room t.to_come in
      (
        ready (ok tt),
        record { gone = t.gone ++ xs; to_come = drop b.room t.to_come },
        page.put_slice b xs,
        cx,
      );
}

abbrev pub gone_from : Source → List ℕ
gone_from t = t.gone

pub source_contract : ReadContract page source_read gone_from
source_contract = record {
  read_law = λ t cx b. record { chunk = take b.room t.to_come; taken = refl; put = refl };
}

-- The same stream behind a buffer, which is filled with all that is to come.
instance abbrev pub source_buf_read : AsyncBufRead ℕ Source
source_buf_read = record {
  poll_fill_buf = λ t cx. (ready (ok t.to_come), t, cx);
  consume = λ t amt. record { gone = t.gone ++ take amt t.to_come; to_come = drop amt t.to_come };
}

pub source_fills : BufReadContract source_buf_read gone_from
source_fills = record { fill_law = λ t cx. (refl, λ n h. refl) }

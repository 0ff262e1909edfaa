-- ===== src/Injector/Tests.antt =====
-- tokio-netem/src/injector.rs: examples.
use native.Mathlib.Nat.{le_refl}
use trixter.Prelude.{ℕ, ◌≡◌, refl, ◌≢◌, ◌≤◌, List, [], ◌∷◌, none, some, arith}
use trixter.Tokio.{ready, spin}
use trixter.Fixtures.{Tape, blank, on_tape, tape, tape_contract, Page, page, page_laws}
use trixter.Fixtures.Inbox.{
  Inbox, inbox, inbox_laws, taken_of, messages_left, Source, source_read, source_contract,
}
use trixter.Drain.{drain}
use trixter.Drain.Sends.{left_in}
use trixter.Drain.Merge.{Woven, reported}
use trixter.Injector.Reader.{ReadInjector, poll_read}
use trixter.Injector.Reader.Delivery as delivery
use trixter.Injector.Reader.Delivery.{fresh}
use trixter.Injector.Writer.{WriteInjector, poll_write, write_injector_write}
use trixter.Injector.Writer.Queue.{Injects, poll_write-Injects}
use trixter.Injector.Writer.Runs as runs

-- Half a message waits and two are in the channel.
abbrev two_messages : Inbox
two_messages = record { taken = []; queue = (71 ∷ 72 ∷ 73 ∷ []) ∷ (81 ∷ []) ∷ [] }

abbrev injecting : WriteInjector Tape Inbox
injecting = record {
  inner = blank;
  buffer = some (61 ∷ 62 ∷ 63 ∷ 64 ∷ 65 ∷ []);
  inject_rx = two_messages;
}

abbrev task : ℕ
task = 8

write_ends : (t : Tape) (cx : ℕ) (buf : List ℕ) → (tape.poll_write t cx buf).0 ≢ ready spin
write_ends t cx buf h = cc

no_refund :
    (t : Tape) (cx : ℕ) (buf : List ℕ)
    → messages_left (tape.poll_write t cx buf).2 ≤ messages_left cx
no_refund t cx buf = le_refl cx

poll_write-Injects_example :
    Injects tape_contract write_ends inbox_laws no_refund
      (61 ∷ 62 ∷ 63 ∷ 64 ∷ 65 ∷ [])
      (1 ∷ 2 ∷ [])
      []
      []
      (poll_write injecting task (1 ∷ 2 ∷ []))
poll_write-Injects_example =
    poll_write-Injects tape_contract write_ends inbox_laws no_refund injecting task (1 ∷ 2 ∷ [])
      (omega arith)

abbrev a_write : WriteInjector Tape Inbox
a_write = (write_injector_write.poll_write injecting task (1 ∷ 2 ∷ [])).1

calls-Woven_example :
    Woven
      (61 ∷ 62 ∷ 63 ∷ 64 ∷ 65 ∷ [])
      (left_in a_write.buffer)
      []
      (on_tape a_write.inner)
      []
      (taken_of a_write.inject_rx)
      (reported (poll_write injecting task (1 ∷ 2 ∷ [])).0 (1 ∷ 2 ∷ []))
calls-Woven_example =
    runs.calls-Woven tape_contract write_ends inbox_laws no_refund
      (runs.write runs.created task (1 ∷ 2 ∷ []) (omega arith))

abbrev reading : ReadInjector Source Inbox
reading = record {
  inner = record { gone = []; to_come = 1 ∷ 2 ∷ [] };
  buffer = none;
  inject_rx = two_messages;
}

abbrev two_bytes : Page
two_bytes = record { room = 2; text = 9 ∷ [] }

Reads-Handed_example :
    delivery.Handed page_laws inbox_laws source_contract reading
      (poll_read reading task two_bytes).1
      (fresh page two_bytes (poll_read reading task two_bytes).2)
Reads-Handed_example =
    delivery.Reads-Handed page_laws inbox_laws source_contract
      (delivery.read delivery.created task two_bytes)

-- The write sends the eight waiting bytes and the caller's two, and the read the first two of the
-- message.
wire_test : on_tape a_write.inner ≡ 61 ∷ 62 ∷ 63 ∷ 64 ∷ 65 ∷ 71 ∷ 72 ∷ 73 ∷ 81 ∷ 1 ∷ 2 ∷ []
unfolding poll_write drain
wire_test = refl

read_test : (poll_read reading task two_bytes).2.text ≡ 9 ∷ 71 ∷ 72 ∷ []
unfolding poll_read
read_test = refl

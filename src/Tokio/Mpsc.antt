-- ===== src/Tokio/Mpsc.antt =====
-- `mpsc::Receiver<Bytes>` as an interface: a poll is ready with a message, or with none when the
-- channel is closed and empty.
use trixter.Prelude.{ℕ, ◌≤◌, ◌<◌, ◌≡◌, List, ◌++◌, Option, none, some}
use trixter.Tokio.Task.{Poll, pending, ready}

pub record Channel (Cx Rx : Type 0) : Type 0 where
  pub poll_recv : Rx → Cx → Poll (Option (List ℕ)) × Rx × Cx

-- A poll with a message adds its bytes to those that the receiver gave out, and takes at least one
-- from the number of messages that tokio's cooperative scheduling lets the task receive before it
-- yields; no other poll adds a byte, and none raises that number.
abbrev pub Receives : Poll (Option (List ℕ)) → List ℕ → List ℕ → ℕ → ℕ → Type 0
Receives (ready (some message)) old new before after = (new ≡ old ++ message) × (after < before)
Receives (ready none) old new before after = (new ≡ old) × (after ≤ before)
Receives pending old new before after = (new ≡ old) × (after ≤ before)

pub record ChannelLaws {Cx Rx : Type 0} (ch : Channel Cx Rx) (log : Rx → List ℕ) (budget : Cx → ℕ)
    : Type 0 where
  pub recv_law :
      (rx : Rx) (cx : Cx)
      → let (message, rx', cx') = ch.poll_recv rx cx in
        Receives message (log rx) (log rx') (budget cx) (budget cx')

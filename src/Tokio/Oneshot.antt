-- ===== src/Tokio/Oneshot.antt =====
-- `tokio::sync::oneshot::Receiver<BError>` as an interface: a poll is ready with what was sent, or
-- with none when the sender was dropped.
use trixter.Prelude.{Option}
use trixter.Tokio.Task.{Poll, Payload}

pub record Receiver (Cx Rx : Type 0) : Type 0 where
  pub poll_receiver : Rx → Cx → Poll (Option Payload) × Rx × Cx

-- ===== src/Io/Linger.antt =====
-- tokio-netem/src/io.rs: the trait `ResetLinger` and its implementations on sockets.
use trixter.Prelude.{ℕ, Option, some}
use trixter.Tokio.{Result, ok}

pub record ResetLinger (T : Type 0) : Type 0 where
  pub set_reset_linger : T → Result (Unit {0}) × T

-- Sockets without linger, buffered wrappers and in-memory streams do nothing.
abbrev pub no_linger : {T : Type 0} → ResetLinger T
no_linger = record { set_reset_linger = λ t. (ok tt, t) }

-- What the code uses of `TcpStream`: the socket option, with its time in nanoseconds.
pub record SetLinger (T : Type 0) : Type 0 where
  pub set_linger : T → Option ℕ → Result (Unit {0}) × T

-- A TCP socket is reset when it closes: its linger is set to a time of 0.
abbrev pub tcp_linger : {T : Type 0} ⦃s : SetLinger T⦄ → ResetLinger T
tcp_linger ⦃s⦄ = record { set_reset_linger = λ t. s.set_linger t (some 0) }

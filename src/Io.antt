-- ===== src/Io.antt =====
-- tokio-netem/src/io.rs: the trait `ResetLinger`, and the forwarding that the adapters share.
mod Linger
mod Forward
pub use Linger.*
pub use Forward.*

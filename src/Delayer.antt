-- ===== src/Delayer.antt =====
-- tokio-netem/src/delayer.rs: delays before reads and writes.
mod Tests
mod Knob
pub mod Delay
pub mod Writer
pub mod Reader
pub use Knob.*

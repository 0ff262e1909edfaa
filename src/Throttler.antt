-- ===== src/Throttler.antt =====
-- tokio-netem/src/throttler.rs
mod Knob
mod Tests
pub mod Bucket
pub mod Writer
pub mod Reader
pub use Knob.*

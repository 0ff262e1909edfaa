-- ===== src/Injector.antt =====
-- tokio-netem/src/injector.rs: `ReadInjector` and `WriteInjector`.
pub mod Reader
pub mod Writer
mod Tests

-- ===== src/Proxy.antt =====
-- trixter/src/main.rs: the proxy.
pub mod Settings
pub mod Api
pub mod Stack
pub mod Finish
pub mod Task
pub mod Main

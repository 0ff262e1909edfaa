-- ===== src/Tokio.antt =====
-- What the crates take from the standard library and from tokio: the shapes of results, and the
-- traits, timers and buffers as interfaces. Nothing here is code of the repository.
mod Task
mod Traits
mod Contract
pub mod Calls
mod Time
mod Oneshot
mod Map
mod Mpsc
mod Random
pub use Task.*
pub use Traits.*
pub use Contract.*
pub use Random.*
pub use Map.*
pub use Mpsc.*
pub use Oneshot.*
pub use Time.*

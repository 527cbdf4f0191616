-- ===== src/Service.antt =====
-- The C++ services of cpp/common: the messages they send, dispatch, remote calls, timers, and the service itself.
pub mod Table
pub mod Send
pub mod Dispatcher
pub mod Rpc
pub mod Timer
pub mod State
pub mod Poll
pub mod Outgoing
pub mod Socket
mod Tests

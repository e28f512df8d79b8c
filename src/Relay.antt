-- ===== src/Relay.antt =====
-- apps/relay/src: the bounded pump of messages between two sockets.
pub mod Pump
pub mod Invariant
pub mod Bounds
pub mod Flow
pub mod Order
pub mod Redis
pub mod Coordinator
pub mod Attempts
pub mod Controller
pub mod Authorize
mod Tests
mod RedisTable
mod ControllerTests
mod AuthorizeTests

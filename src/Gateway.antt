-- ===== src/Gateway.antt =====
-- The gateway of the Discord API: src/shard.cpp and include/ekizu/shard.hpp.
pub mod Json
pub mod Shard
pub mod Connection
pub mod Messages
pub mod Machine
mod Effects
mod Pending
mod Closing
mod Attempts
mod Heartbeats
mod Resume
mod Tests

-- ===== src/Cluster.antt =====
-- cpp/beecluster/lua-beecluster.c
pub mod Wire
pub mod Lua
pub mod Memory
pub mod Request
pub mod Unpack
pub mod Response
pub mod Assemble
pub mod Name
pub mod Agent
mod Tests
pub mod Sender
pub mod Call
pub mod Push
pub mod Names
pub mod Tasks
pub mod Lookup
pub mod Connection

-- ===== src/Rpc.antt =====
-- src/rpc: how the processes talk to each other.
pub mod Transport
pub mod Remote
mod Examples

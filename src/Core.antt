-- ===== src/Core.antt =====
-- src/core: the daemon that starts and stops the other processes, and the state machine's process.
pub mod Daemons
pub mod Runner
pub mod Examples

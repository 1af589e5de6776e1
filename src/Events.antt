-- ===== src/Events.antt =====
-- src/public/event_sc: the event loop with its coroutines.
pub mod Mutex
pub mod Redis
pub mod RedisHelper
pub mod Timer
pub mod Wait
pub mod Loop
mod Examples

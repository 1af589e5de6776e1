-- ===== src/Utils.antt =====
-- src/public/utils: the string and log helpers that the other parts call.
pub mod Split
mod Examples

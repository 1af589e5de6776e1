-- ===== src/Cli.antt =====
-- src/cli: the commands of the command line that edit the configuration and drive the daemons.
pub mod SmConfig
pub mod DeviceConfig
pub mod RuntimeConfig
pub mod Words
pub mod RedisConfig
pub mod Session
mod Examples

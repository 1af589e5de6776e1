-- ===== src/Driver.antt =====
-- The device drivers: the state that every driver shares and its chute relay
-- (src/driver/lib/common_driver.{h,cpp}), and the drivers built on it.
pub mod Common
pub mod Tastek
pub mod Mock
pub mod Modbus
pub mod Rd
mod Examples

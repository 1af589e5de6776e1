-- ===== src/Driver/Modbus.antt =====
-- src/driver/lib/modbus_driver.{h,cpp}: named registers and coils of a Modbus device, which a thread
-- reads and writes under the lock that every operation takes, so that a round of it is one step.
-- `F` stands for float, `bits` for the memcpy of 32 bits into one, and `Device` for libmodbus.
pub mod Poll
mod Examples
use auto_drop.Prelude.{
  ℕ, ◌+◌, ◌*◌, ◌/◌, ◌%◌, Bool, true, false, not, ◌||◌, if◌then◌else◌, Option, none, some, List, [],
  ◌∷◌, Str, Dict, lookup, insert, str_eq,
}
use auto_drop.Prelude.Int.{ℤ}

pub record FloatAddr (F : Type 0) : Type 0 where
  pub addr : ℤ
  pub value : F

pub record CoilAddr : Type 0 where
  pub addr : ℤ
  pub value : Bool

pub record ModbusDriver (F : Type 0) : Type 0 where
  pub float32_abcd_meta : Dict Str (FloatAddr F)
  pub coil_meta : Dict Str CoilAddr
  pub is_working : Bool
  pub exception_occurred : Bool

-- modbus_read_registers of two registers, if it returns 2, and whether modbus_write_bit returns 1.
pub record Device (W : Type 0) : Type 0 where
  pub read_registers : ℤ → W → Option (ℕ × ℕ) × W
  pub write_bit : ℤ → Bool → W → Bool × W

module _ {F : Type 0} (bits : ℕ → F) (zero_f : F) where
  unfoldable pub convert_registers_to_float : ℕ → ℕ → F
  convert_registers_to_float reg0 reg1 =
      let a = (reg0 / 256) % 256 in
      let b = reg0 % 256 in
      let c = (reg1 / 256) % 256 in
      let d = reg1 % 256 in bits (a * 16777216 + b * 65536 + c * 256 + d)

  -- `connected`: a context that modbus_connect accepted; without one no thread is started.
  unfoldable pub init_modbus : Bool → ModbusDriver F
  init_modbus connected = record {
    float32_abcd_meta = [];
    coil_meta = [];
    is_working = connected;
    exception_occurred = not connected;
  }

  unfoldable pub add_float32_abcd_meta : Str → ℤ → ModbusDriver F → ModbusDriver F
  add_float32_abcd_meta name addr d =
      let pair : FloatAddr F = record { addr = addr; value = zero_f } in
      record d { float32_abcd_meta = insert name pair d.float32_abcd_meta }

  unfoldable pub add_coil_meta : Str → ℤ → ModbusDriver F → ModbusDriver F
  add_coil_meta name addr d =
      let pair : CoilAddr = record { addr = addr; value = false } in
      record d { coil_meta = insert name pair d.coil_meta }

  unfoldable pub read_float32_abcd : Str → ModbusDriver F → F
  read_float32_abcd name d = elim (lookup name d.float32_abcd_meta) [
    | none ↦ zero_f
    | some p ↦ p.value
  ]

  unfoldable pub write_coil : Str → Bool → ModbusDriver F → ModbusDriver F
  write_coil name value d = elim (lookup name d.coil_meta) [
    | none ↦ d
    | some p ↦ record d { coil_meta = insert name (record p { value = value }) d.coil_meta }
  ]

  module _ {W : Type 0} (dev : Device W) where
    -- What one read leaves in an entry, and whether it failed.
    unfoldable pub store_registers : Option (ℕ × ℕ) → FloatAddr F → FloatAddr F × Bool
    unfolding convert_registers_to_float
    store_registers none p = (p, true)
    store_registers (some (reg0, reg1)) p =
        (record p { value = convert_registers_to_float reg0 reg1 }, false)

    -- The first `for` of the thread: the entries, whether some read failed, and the device.
    unfoldable pub poll_floats : Dict Str (FloatAddr F) → W → Dict Str (FloatAddr F) × Bool × W
    unfolding store_registers
    poll_floats [] w = ([], false, w)
    poll_floats ((name, p) ∷ m) w =
        let (regs, w1) = dev.read_registers p.addr w in
        let (p', failed) = store_registers regs p in
        let (m', later, w2) = poll_floats m w1 in ((name, p') ∷ m', failed || later, w2)

    -- The second.
    unfoldable pub poll_coils : Dict Str CoilAddr → W → Bool × W
    poll_coils [] w = (false, w)
    poll_coils ((name, p) ∷ m) w =
        let (written, w1) = dev.write_bit p.addr p.value w in
        let (later, w2) = poll_coils m w1 in (not written || later, w2)

    unfoldable pub poll_round : ModbusDriver F → W → ModbusDriver F × W
    unfolding poll_floats poll_coils
    poll_round d w =
        let (m, bad_read, w1) = poll_floats d.float32_abcd_meta w in
        let (bad_write, w2) = poll_coils d.coil_meta w1 in
        (
          record d {
            float32_abcd_meta = m;
            exception_occurred = d.exception_occurred || bad_read || bad_write;
          },
          w2,
        )

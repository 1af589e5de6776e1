-- ===== src/Driver/Modbus/Poll.antt =====
-- What the Modbus thread of modbus_driver.cpp reads.
use auto_drop.Prelude.{
  ℕ, ◌+◌, ◌*◌, ◌<◌, ◌≡◌, ap, some, [], ◌∷◌, Str, Dict, lookup, insert, lookup-insert, str_eq, arith,
}
use auto_drop.Prelude.Int.{ℤ}
use auto_drop.Driver.Modbus.{
  FloatAddr, ModbusDriver, Device, convert_registers_to_float, add_float32_abcd_meta,
  read_float32_abcd, poll_floats, poll_round,
}

-- A reachable device: it answers each read with its two registers of 16 bits and is not changed by it.
pub record Answers {W : Type 0} (dev : Device W) (regs : ℤ → ℕ × ℕ) : Type 0 where
  pub reads : (a : ℤ) (w : W) → dev.read_registers a w ≡ (some (regs a), w)
  pub small0 : (a : ℤ) → (regs a).0 < 65536
  pub small1 : (a : ℤ) → (regs a).1 < 65536

module _ {F : Type 0} (bits : ℕ → F) (zero_f : F) where
  convert_big_endian :
      (reg0 reg1 : ℕ)
      → reg0 < 65536
      → reg1 < 65536
      → convert_registers_to_float bits zero_f reg0 reg1 ≡ bits (reg0 * 65536 + reg1)
  unfolding convert_registers_to_float
  convert_big_endian reg0 reg1 h k = ap bits (omega arith)

  module _ {W : Type 0} (dev : Device W) (regs : ℤ → ℕ × ℕ) (ok : Answers dev regs) where
    abbrev polled : FloatAddr F → FloatAddr F
    polled p = record p {
      value = convert_registers_to_float bits zero_f (regs p.addr).0 (regs p.addr).1;
    }

    lookup-poll_floats :
        (name : Str) (p : FloatAddr F) (m : Dict Str (FloatAddr F)) (w : W)
        → lookup name m ≡ some p
        → lookup name (poll_floats bits zero_f dev m w).0 ≡ some (polled p)
    unfolding lookup poll_floats
    lookup-poll_floats name p [] w h = cc
    lookup-poll_floats name p ((n, q) ∷ m) w h =
        rw (ok.reads q.addr w) (ground (arith, lookup-poll_floats name p m w))

    -- On a device that answers, after a name is given an address, one round of the thread makes
    -- read_float32_abcd of the name the float of the 32 bits of the two registers there, the first
    -- one high.
    pub read_float32_abcd-poll_round :
        (name : Str) (addr : ℤ) (d : ModbusDriver F) (w : W)
        → read_float32_abcd bits zero_f name
            (poll_round bits zero_f dev (add_float32_abcd_meta bits zero_f name addr d) w).0
          ≡ bits ((regs addr).0 * 65536 + (regs addr).1)
    unfolding read_float32_abcd poll_round add_float32_abcd_meta
    read_float32_abcd-poll_round name addr d w =
        let p : FloatAddr F = record { addr = addr; value = zero_f } in
        let m = insert name p d.float32_abcd_meta in
        let e : lookup name m ≡ some p =
          ground (arith, lookup-insert name name p d.float32_abcd_meta, str_eq.beq_iff name name) in
        ground (
          arith,
          lookup-poll_floats name p m w e,
          convert_big_endian (regs addr).0 (regs addr).1 (ok.small0 addr) (ok.small1 addr),
        )

-- ===== src/Driver/Modbus/Examples.antt =====
-- A device whose registers at the address 7 are 16256 and 1, and a float that is its 32 bits.
use auto_drop.Prelude.{ℕ, refl, true, some, arith}
use auto_drop.Prelude.Int.{ℤ}
use auto_drop.Driver.Modbus.{Device}
use auto_drop.Driver.Modbus.Poll.{Answers}

abbrev regs : ℤ → ℕ × ℕ
regs a = (16256, 1)

abbrev device : Device ℕ
device = record { read_registers = λ a w. (some (regs a), w); write_bit = λ a b w. (true, w) }

device-Answers : Answers device regs
device-Answers = record {
  reads = λ a w. refl;
  small0 = λ a. omega arith;
  small1 = λ a. omega arith;
}

abbrev same_bits : ℕ → ℕ
same_bits n = n

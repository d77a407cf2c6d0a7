-- ===== src/Tps.antt =====
-- src/boot/tps65910.c: the power chip, behind the adapter of bus 0, which every function takes and
-- gives back.
pub mod Returns
pub mod Lost
pub mod Tests
use miniboot.Common.{ℕ, ◌%◌, ◌^◌, List, [], ◌∷◌, get_or, bit_and, bit_or, ◌==◌, if◌then◌else◌}
use miniboot.Bus.{Device, Prog, pure, ◌>>=◌, ◌>>◌}
use miniboot.I2c.Message.{I2cMsg}
use miniboot.I2c.Adapter.{I2cAdapter, i2c_init, i2c_transfer}

-- TPS65910_CTRL_I2C_ADDR
abbrev pub ctrl_addr : ℕ
ctrl_addr = 0x2D

abbrev write_to : List ℕ → ℕ → I2cMsg
write_to buf len = record { addr = ctrl_addr; flags = 0; len = len; buf = buf }

abbrev read_from : ℕ → I2cMsg
read_from buf = record { addr = ctrl_addr; flags = 1; len = 1; buf = buf ∷ [] }

-- The byte that the second message has read.
unfoldable pub second_byte : List I2cMsg → ℕ
second_byte [] = 0
second_byte (m ∷ []) = 0
second_byte (m ∷ n ∷ ms) = get_or n.buf 0 0

-- TPS65910_VDD1_OP_REG or TPS65910_VDD2_OP_REG
abbrev pub op_reg : ℕ → ℕ
op_reg mod' = if mod' == 0 then 0x22 else 0x25

-- `junk` is what a variable holds that is not initialised: `rval` of `i2c_transfer`, or `buf` of
-- `__inb`.
module _ (dev : Device) (fuel junk : ℕ) where
  unfoldable pub tps65910_init : I2cAdapter → Prog ℕ
  tps65910_init adap = i2c_init dev fuel adap >> pure 0

  unfoldable pub outb : I2cAdapter → ℕ → ℕ → Prog I2cAdapter
  outb adap reg val = do
    r ← i2c_transfer dev fuel junk adap (write_to (reg ∷ val ∷ []) 2 ∷ [])
    pure r.1

  unfoldable pub inb : I2cAdapter → ℕ → Prog (ℕ × I2cAdapter)
  inb adap reg = do
    r ← i2c_transfer dev fuel junk adap (write_to (reg ∷ []) 1 ∷ read_from (junk % 2 ^ 8) ∷ [])
    pure (second_byte r.2, r.1)

  unfoldable pub tps65910_set_i2c_control : I2cAdapter → Prog I2cAdapter
  tps65910_set_i2c_control adap = do (val, adap1) ← inb adap 0x3F; outb adap1 0x3F (bit_or val 0x10)

  unfoldable pub tps65910_voltage_update : I2cAdapter → ℕ → ℕ → Prog I2cAdapter
  tps65910_voltage_update adap mod' vddx_op_vol_sel = do
    (val, adap1) ← inb adap (op_reg mod')
    adap2 ← outb adap1 (op_reg mod') (bit_and val 0x7F)
    (val', adap3) ← inb adap2 (op_reg mod')
    outb adap3 (op_reg mod') (bit_or (bit_and val' 0x80) vddx_op_vol_sel)

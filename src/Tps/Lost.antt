-- ===== src/Tps/Lost.antt =====
-- src/boot/tps65910.c: once a register has been read, nothing reaches the power chip.
use miniboot.Common.{ℕ, ◌+◌, ◌≡◌, List, bit_and, bit_or}
use miniboot.Bus.{Device, Trace, done}
use miniboot.Bus.Spares.{writes_to, Spares, Spares-pure, Spares-bind}
use miniboot.I2c.{reg_data}
use miniboot.I2c.Message.{I2cMsg}
use miniboot.I2c.Adapter.{I2cAdapter, i2c_transfer}
use miniboot.I2c.Ending.{IsAlive}
use miniboot.I2c.Lost.{IsStuck, i2c_transfer-Spares}
use miniboot.Tps.{outb, inb, tps65910_set_i2c_control, op_reg, tps65910_voltage_update}

module _ (dev : Device) (fuel junk base : ℕ) (alive : IsAlive dev fuel base) where
  a : ℕ
  a = base + reg_data

  After : ℕ × I2cAdapter × List I2cMsg → Type 0
  After r = IsStuck base r.1

  send-Spares :
      (adap : I2cAdapter) (msgs : List I2cMsg)
      → IsStuck base adap
      → Spares a After (i2c_transfer dev fuel junk adap msgs)
  unfolding a After
  send-Spares adap msgs stuck = i2c_transfer-Spares dev fuel base alive junk adap msgs stuck

  outb-Spares :
      (adap : I2cAdapter) (reg val : ℕ)
      → IsStuck base adap
      → Spares a (IsStuck base) (outb dev fuel junk adap reg val)
  unfolding outb After
  outb-Spares adap reg val stuck =
      Spares-bind a After (IsStuck base) (send-Spares adap _ stuck)
        λ r s. Spares-pure a (IsStuck base) r.1 s

  Got : ℕ × I2cAdapter → Type 0
  Got r = IsStuck base r.1

  inb-Spares :
      (adap : I2cAdapter) (reg : ℕ) → IsStuck base adap → Spares a Got (inb dev fuel junk adap reg)
  unfolding inb After Got
  inb-Spares adap reg stuck =
      Spares-bind a After Got (send-Spares adap _ stuck) λ r s. Spares-pure a Got _ s

  update-Spares :
      (adap : I2cAdapter) (m sel : ℕ)
      → IsStuck base adap
      → Spares a (IsStuck base) (tps65910_voltage_update dev fuel junk adap m sel)
  unfolding tps65910_voltage_update Got
  update-Spares adap m sel stuck =
      let P = IsStuck base in
      Spares-bind a Got P (inb-Spares adap (op_reg m) stuck) λ (val, adap1) s1.
        Spares-bind a P P (outb-Spares adap1 (op_reg m) (bit_and val 0x7F) s1) λ adap2 s2.
          Spares-bind a Got P (inb-Spares adap2 (op_reg m) s2)
            λ (val', adap3) s3. outb-Spares adap3 (op_reg m) (bit_or (bit_and val' 0x80) sel) s3

  control-Spares :
      (adap : I2cAdapter)
      → IsStuck base adap
      → Spares a (IsStuck base) (tps65910_set_i2c_control dev fuel junk adap)
  unfolding tps65910_set_i2c_control Got
  control-Spares adap stuck =
      Spares-bind a Got (IsStuck base) (inb-Spares adap 0x3F stuck)
        λ (val, adap1) s1. outb-Spares adap1 0x3F (bit_or val 0x10) s1

  -- Let the timer advance, the controller report the end of its reset, and a message have been read
  -- through the adapter before. Then `tps65910_set_i2c_control` and `tps65910_voltage_update`
  -- return, for any module and voltage, and not one byte goes to the data register: neither the
  -- number of the register to read nor the new setting reaches the power chip.
  pub power_settings-lost :
      (adap : I2cAdapter) (m sel : ℕ)
      → IsStuck base adap
      → (h : Trace)
      → ((adap' : I2cAdapter) × (h' : Trace) × (tps65910_set_i2c_control dev fuel junk adap h
            ≡ done adap' h')
          × IsStuck base adap'
          × (writes_to (base + reg_data) h' ≡ writes_to (base + reg_data) h))
        × ((adap' : I2cAdapter) × (h' : Trace) × (tps65910_voltage_update dev fuel junk adap m sel h
              ≡ done adap' h')
            × IsStuck base adap'
            × (writes_to (base + reg_data) h' ≡ writes_to (base + reg_data) h))
  unfolding a
  power_settings-lost adap m sel stuck h =
      ((control-Spares adap stuck).runs h, (update-Spares adap m sel stuck).runs h)

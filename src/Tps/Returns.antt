-- ===== src/Tps/Returns.antt =====
-- src/boot/tps65910.c: every call returns, with an adapter that is still usable.
use miniboot.Common.{Option, some, sym, ℕ, ◌<◌, ◌≡◌, List, length, arith}
use mathlib.Core.Path.{subst}
use miniboot.I2c.{Priv}
use miniboot.I2c.Message.{I2cMsg}
use miniboot.I2c.Adapter.{I2cAdapter, i2c_transfer, i2c_init, init_priv}
use miniboot.I2c.Ending.{IsAlive, omap_i2c_init-Ends}
use miniboot.I2c.Retry.{Usable, i2c_transfer_returns}
use miniboot.Tps.{
  op_reg, outb, inb, tps65910_init, tps65910_set_i2c_control, tps65910_voltage_update,
}
use miniboot.Bus.{Device}
use miniboot.Bus.Ends.{Ends, Ends-bind, Ends-pure}
use miniboot.Bus.Gives.{Gives, Gives-pure, Gives-bind}

module _ (dev : Device) (fuel junk base retries : ℕ) (pos : 0 < retries)
    (alive : IsAlive dev fuel base) where
  Adapter : I2cAdapter → Type 0
  Adapter adap = Usable base retries adap

  -- A transfer, seen as giving a usable adapter.
  Sent : ℕ × I2cAdapter × List I2cMsg → Type 0
  Sent (r, adap, msgs) = Usable base retries adap

  Got : ℕ × I2cAdapter → Type 0
  Got (v, adap) = Usable base retries adap

  send-Gives :
      (adap : I2cAdapter) (msgs : List I2cMsg)
      → Usable base retries adap
      → 0 < length msgs
      → Gives Sent (i2c_transfer dev fuel junk adap msgs)
  unfolding Sent
  send-Gives adap msgs u some_msg = record {
    runs = λ h.
        let (r, adap', msgs', h', e, c, l, u') =
          i2c_transfer_returns dev fuel base retries adap u pos alive junk msgs some_msg h in
        ((r, adap', msgs'), h', e, u');
  }

  outb-Gives :
      (adap : I2cAdapter) (reg val : ℕ)
      → Usable base retries adap
      → Gives Adapter (outb dev fuel junk adap reg val)
  unfolding outb Sent Adapter
  outb-Gives adap reg val u =
      Gives-bind Sent Adapter (send-Gives adap _ u (omega arith)) λ r s. Gives-pure Adapter r.1 s

  inb-Gives :
      (adap : I2cAdapter) (reg : ℕ)
      → Usable base retries adap
      → Gives Got (inb dev fuel junk adap reg)
  unfolding inb Sent Got
  inb-Gives adap reg u =
      Gives-bind Sent Got (send-Gives adap _ u (omega arith)) λ r s. Gives-pure Got _ s

  pub tps65910_set_i2c_control-Gives :
      (adap : I2cAdapter)
      → Usable base retries adap
      → Gives (Usable base retries) (tps65910_set_i2c_control dev fuel junk adap)
  unfolding tps65910_set_i2c_control Got Adapter
  tps65910_set_i2c_control-Gives adap u =
      Gives-bind Got Adapter (inb-Gives adap 0x3F u) λ (val, adap1) u1. outb-Gives adap1 0x3F _ u1

  pub tps65910_voltage_update-Gives :
      (adap : I2cAdapter) (m sel : ℕ)
      → Usable base retries adap
      → Gives (Usable base retries) (tps65910_voltage_update dev fuel junk adap m sel)
  unfolding tps65910_voltage_update Got Adapter
  tps65910_voltage_update-Gives adap m sel u =
      Gives-bind Got Adapter (inb-Gives adap (op_reg m) u) λ (val, adap1) u1.
        Gives-bind Adapter Adapter (outb-Gives adap1 (op_reg m) _ u1) λ adap2 u2.
          Gives-bind Got Adapter (inb-Gives adap2 (op_reg m) u2)
            λ (val', adap3) u3. outb-Gives adap3 (op_reg m) _ u3

  init_priv-Ends :
      (p : Option Priv) (priv : Priv)
      → p ≡ some priv
      → IsAlive dev fuel priv.base
      → Ends (init_priv dev fuel p)
  unfolding init_priv
  init_priv-Ends p priv e ready = rw e (omap_i2c_init-Ends dev fuel priv ready)

  pub tps65910_init-Ends :
      (adap : I2cAdapter) → Usable base retries adap → Ends (tps65910_init dev fuel junk adap)
  unfolding tps65910_init i2c_init
  tps65910_init-Ends adap u =
      Ends-bind
        (init_priv-Ends adap.priv u.priv u.has_priv (subst (IsAlive dev fuel) (sym u.same) alive))
        λ _. Ends-pure 0

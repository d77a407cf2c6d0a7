-- ===== src/I2c/Adapter.antt =====
-- src/boot/i2c.c: the adapters and the retries.
use miniboot.Common.{ℕ, zero, suc, ◌^◌, Option, none, some, List, [], ◌∷◌, ltb, ◌&&◌, if◌then◌else◌}
use miniboot.Bus.{Device, Prog, crash, pure, ◌>>=◌}
use miniboot.I2c.{Priv, omap_i2c_init}
use miniboot.I2c.Message.{I2cMsg, Outcome, omap_i2c_xfer}

pub data Xfer : Type 0 where
  no_xfer omap_xfer : Xfer

-- `struct i2c_adapter`, with the record that `priv` points to, or none for the null pointer.
pub record I2cAdapter : Type 0 where
  pub retries : ℕ
  pub timeout : ℕ
  pub priv : Option Priv
  pub xfer : Xfer

abbrev omap_adapter : ℕ → I2cAdapter
omap_adapter base = record {
  retries = 2;
  timeout = 0;
  priv = some (record { base = base; flags = 0 });
  xfer = omap_xfer;
}

-- `__i2c_adap[I2C_BUS_MAX]`: the initialiser leaves out the third one.
abbrev pub i2c_adap : List I2cAdapter
i2c_adap =
    omap_adapter 0x44E0B000
    ∷ omap_adapter 0x4802A000
    ∷ record { retries = 0; timeout = 0; priv = none; xfer = no_xfer }
    ∷ []

abbrev pub nth_adapter : ℕ → List I2cAdapter → Option I2cAdapter
nth_adapter i [] = none
nth_adapter zero (a ∷ as') = some a
nth_adapter (suc i) (a ∷ as') = nth_adapter i as'

-- For a bus number that is not negative.
unfoldable pub i2c_get_adapter : ℕ → Option I2cAdapter
i2c_get_adapter busnum = if ltb 2 busnum then none else nth_adapter busnum i2c_adap

module _ (dev : Device) (fuel : ℕ) where
  unfoldable pub init_priv : Option Priv → Prog (Unit {0})
  init_priv none = crash
  init_priv (some priv) = omap_i2c_init dev fuel priv

  unfoldable pub i2c_init : I2cAdapter → Prog (Unit {0})
  i2c_init adap = init_priv adap.priv

  -- `adap->xfer(adap, msgs, num)`
  unfoldable pub call_xfer : Xfer → Option Priv → List I2cMsg → Prog (Outcome (List I2cMsg))
  call_xfer no_xfer priv msgs = crash
  call_xfer omap_xfer none msgs = crash
  call_xfer omap_xfer (some priv) msgs = omap_i2c_xfer dev fuel priv msgs

  -- `while (retries--)`, and `rval` in front of it.
  unfoldable pub retry : ℕ → ℕ → I2cAdapter → List I2cMsg → Prog (ℕ × I2cAdapter × List I2cMsg)
  retry zero rval adap msgs = pure (rval, adap, msgs)
  retry (suc retries) rval adap msgs = do
    o ← call_xfer adap.xfer adap.priv msgs
    (if ltb 0 o.code && ltb o.code (2 ^ 31)
        then pure (o.code, record adap { priv = some o.priv }, o.msg)
        else retry retries o.code (record adap { priv = some o.priv }) o.msg)

  -- `unset` is what `rval` holds before it is assigned.
  unfoldable pub i2c_transfer : ℕ → I2cAdapter → List I2cMsg → Prog (ℕ × I2cAdapter × List I2cMsg)
  i2c_transfer unset adap msgs = retry adap.retries unset adap msgs

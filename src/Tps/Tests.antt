-- ===== src/Tps/Tests.antt =====
-- The theorem of src/boot/tps65910.c at a controller that reports nothing but the end of its reset.
use miniboot.Common.{◌+◌, ◌≡◌, refl, some, [], length, arith}
use miniboot.Bus.{Device, Trace, done, byte, half, word}
use miniboot.Bus.Spares.{writes_to}
use miniboot.I2c.{reg_data}
use miniboot.I2c.Adapter.{I2cAdapter, omap_xfer}
use miniboot.I2c.Ending.{IsAlive}
use miniboot.I2c.Lost.{IsStuck}
use miniboot.Tps.{tps65910_set_i2c_control, tps65910_voltage_update}
use miniboot.Tps.Lost.{power_settings-lost}

-- A status of ARDY and RRDY, and a reset that is over.
abbrev idle : Device
idle byte a h = 0x11
idle half a h = 0x0D
idle word a h = length h

idle-IsAlive : IsAlive idle 5000000 0x44E0B000
idle-IsAlive = record {
  advances = λ h. (omega arith, omega arith);
  ticks = omega arith;
  tries = 0;
  resets = λ h few. refl;
  enough = omega arith;
  other = λ e. omega arith;
}

abbrev used : I2cAdapter
used = record {
  retries = 2;
  timeout = 0;
  priv = some (record { base = 0x44E0B000; flags = 1 });
  xfer = omap_xfer;
}

used-IsStuck : IsStuck 0x44E0B000 used
used-IsStuck = record {
  priv = record { base = 0x44E0B000; flags = 1 };
  is_omap = refl;
  has_priv = refl;
  reading = refl;
  same = refl;
}

power_settings-lost_example :
    ((adap' : I2cAdapter) × (h' : Trace) × (tps65910_set_i2c_control idle 5000000 0 used []
        ≡ done adap' h')
      × IsStuck 0x44E0B000 adap'
      × (writes_to (0x44E0B000 + reg_data) h' ≡ writes_to (0x44E0B000 + reg_data) []))
    × ((adap' : I2cAdapter) × (h' : Trace) × (tps65910_voltage_update idle 5000000 0 used 0 0x1F []
          ≡ done adap' h')
        × IsStuck 0x44E0B000 adap'
        × (writes_to (0x44E0B000 + reg_data) h' ≡ writes_to (0x44E0B000 + reg_data) []))
power_settings-lost_example =
    power_settings-lost idle 5000000 0 0x44E0B000 idle-IsAlive used 0 0x1F used-IsStuck []

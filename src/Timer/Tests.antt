-- ===== src/Timer/Tests.antt =====
-- Runs of src/boot/timer.c.
use miniboot.Common.{◌≡◌, refl, length, [], arith, ◌*◌}
use miniboot.Bus.{Device, Trace, done, writes}
use miniboot.Timer.{tmo_of, udelay}
use miniboot.Timer.Wait.{Advances, Delayed, udelay-Delayed, udelay_returns}

one_millisecond : tmo_of 1000 ≡ 3000
unfolding tmo_of
one_millisecond = refl

-- A counter that goes on by one from read to read.
abbrev counting : Device
counting w a h = length h

counting-Advances : Advances counting
counting-Advances h = (omega arith, omega arith)

udelay_returns_example :
    (h' : Trace) × (udelay counting 5000000 2 [] ≡ done tt h') × (writes h' ≡ writes [])
udelay_returns_example = udelay_returns counting 5000000 counting-Advances (omega arith) 2 []

-- A counter that goes on by 3000 ticks.
abbrev leaping : Device
leaping w a h = length h * 3000

short_run : (h' : Trace) × (udelay leaping 9 1000 [] ≡ done tt h')
unfolding udelay
short_run = (_, refl)

udelay-Delayed_example : Delayed 1000 [] short_run.0
udelay-Delayed_example = udelay-Delayed leaping 9 1000 short_run.1

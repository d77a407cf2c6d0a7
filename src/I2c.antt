-- ===== src/I2c.antt =====
-- src/boot/i2c.c and include/i2c.h: the I2C controller. A message holds the bytes that its `buf`
-- points to, and an adapter the private record that its `priv` points to.
pub mod Message
pub mod Adapter
pub mod Ending
pub mod Transfer
pub mod Retry
pub mod Quiet
pub mod Stuck
pub mod Lost
pub mod Setup
pub mod Tests
use miniboot.Common.{
  ℕ, zero, suc, ◌+◌, ◌-◌, ◌*◌, ◌/◌, ◌%◌, ◌^◌, Bool, true, false, not, bit_and, bit_or, ◌==◌, ltb,
  if◌then◌else◌,
}
use miniboot.Bus.{Device, Prog, spinning, pure, ◌>>=◌, ◌>>◌, readw, writew, bit_not16}
use miniboot.Timer.{udelay}

-- `struct __priv`
pub record Priv : Type 0 where
  pub base : ℕ
  pub flags : ℕ

-- I2C_M_RD
abbrev pub m_rd : ℕ
m_rd = 1

abbrev pub reg_sysc : ℕ
reg_sysc = 0x10

abbrev pub reg_status_raw : ℕ
reg_status_raw = 0x24

abbrev pub reg_stat : ℕ
reg_stat = 0x28

abbrev pub reg_syss : ℕ
reg_syss = 0x90

abbrev pub reg_buf : ℕ
reg_buf = 0x94

abbrev pub reg_cnt : ℕ
reg_cnt = 0x98

abbrev pub reg_data : ℕ
reg_data = 0x9C

abbrev pub reg_con : ℕ
reg_con = 0xA4

abbrev pub reg_sa : ℕ
reg_sa = 0xAC

abbrev pub reg_psc : ℕ
reg_psc = 0xB0

abbrev pub reg_scll : ℕ
reg_scll = 0xB4

abbrev pub reg_sclh : ℕ
reg_sclh = 0xB8

-- I2C_CON_EN, I2C_CON_STP, I2C_CON_TRX
abbrev pub con_en : ℕ
con_en = 0x8000

abbrev pub con_stp : ℕ
con_stp = 2

abbrev pub con_trx : ℕ
con_trx = 0x200

-- The bits of the status that the code looks at.
abbrev pub stat_bb : ℕ
stat_bb = 0x1000

abbrev pub stat_xrdy : ℕ
stat_xrdy = 0x10

abbrev pub stat_rrdy : ℕ
stat_rrdy = 8

abbrev pub stat_nack : ℕ
stat_nack = 2

-- AL, ROVR and XUDF
abbrev pub stat_lost : ℕ
stat_lost = 0xC01

-- `flags` of `check_error`: ARDY, NACK and AL, and ROVR and RRDY or XUDF and XRDY.
abbrev pub awaited : Bool → ℕ
awaited reading = if reading then 0x80F else 0x417

-- `~(XDR | XRDY)` and `~(RDR | RRDY)`
abbrev pub kept : Bool → ℕ
kept reading = if reading then bit_not16 0x4010 else bit_not16 0x2008

abbrev pub has : ℕ → ℕ → Bool
has x bits = not (bit_and x bits == 0)

abbrev pub is_reading : Priv → Bool
is_reading priv = has priv.flags m_rd

module _ (dev : Device) (fuel : ℕ) (priv : Priv) where
  unfoldable pub write_reg : ℕ → ℕ → Prog (Unit {0})
  write_reg val reg = writew val (priv.base + reg)

  unfoldable pub read_reg : ℕ → Prog ℕ
  read_reg reg = readw dev (priv.base + reg)

  -- The loop of `__wait_for_bb`, at that value of `timeout`.
  unfoldable pub wait_loop : ℕ → Prog ℕ
  wait_loop zero = do
    s ← read_reg reg_status_raw
    if has s stat_bb then (udelay dev fuel 1000 >> pure 1) else pure 0
  wait_loop (suc timeout) = do
    s ← read_reg reg_status_raw
    if has s stat_bb then (udelay dev fuel 1000 >> wait_loop timeout) else pure 0

  unfoldable pub wait_for_bb : Prog ℕ
  wait_for_bb = wait_loop 1000

  -- `iclk / speed / 2` is more than 7 for the only call.
  unfoldable pub setup_clk : ℕ → ℕ → ℕ → Prog (Unit {0})
  setup_clk sclk iclk speed = do
    write_reg ((sclk / iclk + 2 ^ 32 - 1) % 2 ^ 32) reg_psc
    write_reg ((iclk / speed / 2 + 2 ^ 32 - 7) % 2 ^ 32) reg_scll
    write_reg ((iclk / speed / 2 + 2 ^ 32 - 5) % 2 ^ 32) reg_sclh

  -- `while (!(SYSS & RDONE)) udelay(1000);`
  unfoldable pub reset_loop : ℕ → Prog (Unit {0})
  reset_loop zero = λ h. spinning
  reset_loop (suc n) = do
    s ← read_reg reg_syss
    if has s 1 then pure tt else (udelay dev fuel 1000 >> reset_loop n)

  unfoldable pub i2c_reset : Prog (Unit {0})
  i2c_reset = do
    sysc ← read_reg reg_sysc
    con ← read_reg reg_con
    write_reg (bit_and con (bit_not16 con_en)) reg_con
    write_reg 0x2 reg_sysc
    write_reg con_en reg_con
    reset_loop fuel
    write_reg sysc reg_sysc

  unfoldable pub omap_i2c_init : Prog (Unit {0})
  omap_i2c_init = do
    write_reg 0 reg_con
    setup_clk 48000000 24000000 100000
    write_reg con_en reg_con

  -- The loop of `check_error` at that value of `timeout`: the status, and the timeout after the
  -- loop, 0 standing for 0 and -1.
  unfoldable pub await_status : ℕ → Prog (ℕ × ℕ)
  await_status zero = do udelay dev fuel 200; s ← read_reg reg_status_raw; pure (s, 0)
  await_status (suc timeout) = do
    udelay dev fuel 200
    s ← read_reg reg_status_raw
    if has s (awaited (is_reading priv)) then pure (s, suc timeout) else await_status timeout

  -- The label `out`: an s16 of -1.
  unfoldable pub give_up : Prog ℕ
  give_up = write_reg 0xFFFF reg_stat >> pure 0xffff

  -- `check_error` behind its loop.
  unfoldable pub judge : ℕ → ℕ → Prog ℕ
  judge stat timeout =
      if has stat stat_lost
      then (i2c_reset >> omap_i2c_init >> give_up)
      else if has stat stat_nack
      then (do con ← read_reg reg_con; write_reg (bit_or con con_stp) reg_con; give_up)
      else if timeout == 0
      then give_up
      else pure stat

  unfoldable pub check_error : Prog ℕ
  check_error = do
    (s, timeout) ← await_status 1000
    judge (bit_and s (kept (is_reading priv))) timeout

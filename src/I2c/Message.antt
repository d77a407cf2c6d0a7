-- ===== src/I2c/Message.antt =====
-- src/boot/i2c.c: transferring one message and several.
use miniboot.Common.{
  ℕ, zero, suc, ◌+◌, List, [], ◌∷◌, length, get_or, bit_or, ◌==◌, leb, if◌then◌else◌,
}
use miniboot.Bus.{Device, Prog, pure, ◌>>=◌, ◌>>◌, readb, writeb}
use miniboot.I2c.{
  Priv, m_rd, reg_stat, reg_buf, reg_cnt, reg_data, reg_con, reg_sa, con_trx, stat_xrdy, stat_rrdy,
  has, write_reg, read_reg, check_error, wait_for_bb,
}

-- `struct i2c_msg`, the buffer being the bytes that it points to.
pub record I2cMsg : Type 0 where
  pub addr : ℕ
  pub flags : ℕ
  pub len : ℕ
  pub buf : List ℕ

-- `buf[idx] = v`
unfoldable pub store : List ℕ → ℕ → ℕ → List ℕ
store [] idx v = []
store (b ∷ bs) zero v = v ∷ bs
store (b ∷ bs) (suc idx) v = b ∷ store bs idx v

-- An s16 that is returned as an int: -1 becomes 32 bits wide.
abbrev pub widen : ℕ → ℕ
widen stat = if leb 0x8000 stat then stat + 0xffff0000 else stat

-- What a transfer gives back: the int it returns, the private record and the messages.
pub record Outcome (A : Type 0) : Type 0 where
  pub code : ℕ
  pub priv : Priv
  pub msg : A

abbrev outcome : {A : Type 0} → ℕ → Priv → A → Outcome A
outcome code priv msg = record { code = code; priv = priv; msg = msg }

-- The private flags and the CON register that a message asks for.
unfoldable pub direct : Priv → I2cMsg → Priv × ℕ
direct priv msg =
    if has msg.flags m_rd
    then (record priv { flags = m_rd }, 0x8403)
    else (priv, bit_or 0x8403 con_trx)

module _ (dev : Device) (fuel : ℕ) where
  -- One byte, once the status is known not to be an error; the result is the buffer.
  unfoldable pub move_byte : Priv → ℕ → ℕ → List ℕ → Prog (List ℕ)
  move_byte priv stat idx buf =
      if has stat stat_rrdy
      then (do
        v ← readb dev (priv.base + reg_data)
        write_reg dev fuel priv stat_rrdy reg_stat
        pure (store buf idx v))
      else if has stat stat_xrdy
      then (do
        writeb (get_or buf idx 0) (priv.base + reg_data)
        write_reg dev fuel priv stat_xrdy reg_stat
        pure buf)
      else pure buf

  -- `for (idx = 0; idx < msg->len; idx++)`, with `n` rounds left: the int, and the buffer.
  unfoldable pub move_bytes : Priv → ℕ → ℕ → List ℕ → Prog (ℕ × List ℕ)
  move_bytes priv idx zero buf = pure (0, buf)
  move_bytes priv idx (suc n) buf = do
    stat ← check_error dev fuel priv
    (if leb 0x8000 stat
        then pure (widen stat, buf)
        else (do buf' ← move_byte priv stat idx buf; move_bytes priv (idx + 1) n buf'))

  unfoldable pub xfer_msg : Priv → I2cMsg → Prog (Outcome I2cMsg)
  xfer_msg priv msg = do
    write_reg dev fuel priv msg.addr reg_sa
    write_reg dev fuel priv msg.len reg_cnt
    b ← read_reg dev fuel priv reg_buf
    write_reg dev fuel priv (bit_or b 0x4040) reg_buf
    write_reg dev fuel priv (direct priv msg).1 reg_con
    (code, buf) ← move_bytes (direct priv msg).0 0 msg.len msg.buf
    pure (outcome code (direct priv msg).0 (record msg { buf = buf }))

  -- `for (i = 0; i < num; i++)`: `code` is `rval` in front of the loop.
  unfoldable pub xfer_msgs : ℕ → Priv → List I2cMsg → Prog (Outcome (List I2cMsg))
  xfer_msgs code priv [] = pure (outcome code priv [])
  xfer_msgs code priv (msg ∷ msgs) = do
    o ← xfer_msg priv msg
    (if o.code == 0
        then (do
          rest ← xfer_msgs 0 o.priv msgs
          pure (outcome rest.code rest.priv (o.msg ∷ rest.msg)))
        else pure (outcome o.code o.priv (o.msg ∷ msgs)))

  -- `num` is the number of messages. `rval < 0` does not hold of what `__wait_for_bb` returns.
  unfoldable pub omap_i2c_xfer : Priv → List I2cMsg → Prog (Outcome (List I2cMsg))
  omap_i2c_xfer priv msgs = do
    busy ← wait_for_bb dev fuel priv
    o ← xfer_msgs busy priv msgs
    _ ← wait_for_bb dev fuel o.priv
    pure (outcome (if o.code == 0 then length msgs else o.code) o.priv o.msg)

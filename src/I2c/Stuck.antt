-- ===== src/I2c/Stuck.antt =====
-- src/boot/i2c.c: once a message has been read, `priv->flags` keeps I2C_M_RD, and the messages that
-- are to be written send nothing.
use miniboot.Common.{ℕ, ◌+◌, ◌≡◌, ◌⊎◌, refl, sym, inl, inr, true, Bool-cases, bit_or}
use mathlib.Core.Path.{subst}
use miniboot.Bus.{Device, Trace, done}
use miniboot.Bus.Spares.{writes_to, Spares, Any, Spares-pure, Spares-bind}
use miniboot.I2c.{Priv, reg_buf, reg_cnt, reg_data, reg_con, reg_sa, has, is_reading, m_rd}
use miniboot.I2c.Message.{I2cMsg, Outcome, move_bytes, direct, xfer_msg}
use miniboot.I2c.Quiet.{move_bytes-quiet, write_reg-quiet, read_reg-quiet}
use miniboot.I2c.Ending.{IsAlive}

direct-reading :
    (priv : Priv) (msg : I2cMsg)
    → (is_reading priv ≡ true) ⊎ (has msg.flags m_rd ≡ true)
    → (is_reading (direct priv msg).0 ≡ true) × ((direct priv msg).0.base ≡ priv.base)
unfolding direct
direct-reading priv msg either = elim (Bool-cases (has msg.flags m_rd)) [
  | inl reads ↦ rw reads (refl, refl)
  | inr sends ↦
      let old : is_reading priv ≡ true = elim either [ inl r ↦ r | inr r ↦ cc ] in
      rw sends (old, refl)
]

-- The private record after a transfer: I2C_M_RD is set, and the controller is the same.
abbrev pub Reads : {A : Type 0} → ℕ → Outcome A → Type 0
Reads base o = (is_reading o.priv ≡ true) × (o.priv.base ≡ base)

pub xfer_msg-Spares :
    (dev : Device) (fuel : ℕ) (priv : Priv) (msg : I2cMsg)
    → IsAlive dev fuel priv.base
    → (is_reading priv ≡ true) ⊎ (has msg.flags m_rd ≡ true)
    → Spares (priv.base + reg_data) (Reads priv.base) (xfer_msg dev fuel priv msg)
unfolding xfer_msg
xfer_msg-Spares dev fuel priv msg alive either =
    let (reading, base) = direct-reading priv msg either in
    let priv' = (direct priv msg).0 in
    let a = priv.base + reg_data in
    let alive' : IsAlive dev fuel priv'.base = subst (IsAlive dev fuel) (sym base) alive in
    let bytes : Spares a Any (move_bytes dev fuel priv' 0 msg.len msg.buf) =
      subst (λ b. Spares (b + reg_data) Any (move_bytes dev fuel priv' 0 msg.len msg.buf)) base
        (move_bytes-quiet dev fuel priv' alive' reading msg.len 0 msg.buf) in
    let send = write_reg-quiet dev fuel priv alive in
    let P = Reads priv.base in
    Spares-bind a Any P (send msg.addr reg_sa refl) λ _ _.
      Spares-bind a Any P (send msg.len reg_cnt refl) λ _ _.
        Spares-bind a Any P (read_reg-quiet dev fuel priv alive reg_buf) λ b _.
          Spares-bind a Any P (send (bit_or b 0x4040) reg_buf refl) λ _ _.
            Spares-bind a Any P (send (direct priv msg).1 reg_con refl)
              λ _ _. Spares-bind a Any P bytes λ r _. Spares-pure a P _ (reading, base)

-- Let the timer advance and the controller report the end of its reset, and let either
-- `priv->flags` have I2C_M_RD set or the message be one to read. The transfer of the message then
-- returns, writes nothing to the data register, and leaves I2C_M_RD set in `priv->flags`. So from
-- the first message that is read on, the messages that are to be written send none of their bytes.
pub xfer_msg-stuck :
    (dev : Device) (fuel : ℕ) (priv : Priv) (msg : I2cMsg)
    → IsAlive dev fuel priv.base
    → (is_reading priv ≡ true) ⊎ (has msg.flags m_rd ≡ true)
    → (h : Trace)
    → (o : Outcome I2cMsg) × (h' : Trace) × (xfer_msg dev fuel priv msg h ≡ done o h')
      × (is_reading o.priv ≡ true)
      × (writes_to (priv.base + reg_data) h' ≡ writes_to (priv.base + reg_data) h)
xfer_msg-stuck dev fuel priv msg alive either h =
    let (o, h', e, (reading, base), same) =
      (xfer_msg-Spares dev fuel priv msg alive either).runs h in
    (o, h', e, reading, same)

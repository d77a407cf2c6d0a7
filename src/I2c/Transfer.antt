-- ===== src/I2c/Transfer.antt =====
-- src/boot/i2c.c: one try of a transfer returns, and what it can return.
use miniboot.Common.{
  ℕ, zero, suc, ◌+◌, ◌^◌, ◌≤◌, ◌≡◌, ◌⊎◌, refl, sym, ◌∙◌, ap, inl, inr, Bool-cases, List, [], ◌∷◌,
  length, get_or, ◌==◌, leb, if◌then◌else◌, arith, bit_or,
}
use mathlib.Core.Path.{subst}
use miniboot.Bus.{Device, byte}
use miniboot.Bus.Ends.{Ends-read, Ends-writeb}
use miniboot.Bus.Gives.{Gives, Gives-pure, Gives-bind, Gives-after, Gives-if}
use miniboot.I2c.{
  Priv, reg_data, reg_stat, reg_buf, reg_cnt, reg_con, reg_sa, stat_rrdy, stat_xrdy, has, m_rd,
}
use miniboot.I2c.Message.{
  I2cMsg, store, widen, Outcome, move_byte, move_bytes, direct, xfer_msg, xfer_msgs, omap_i2c_xfer,
}
use miniboot.I2c.Ending.{IsAlive, write_reg-Ends, read_reg-Ends, check_error-Ends, wait_for_bb-Ends}

-- 0, or a negative int.
abbrev pub IsCode : ℕ → Type 0
IsCode r = (r ≡ 0) ⊎ (2 ^ 31 ≤ r)

length-store : (buf : List ℕ) (i v : ℕ) → length (store buf i v) ≡ length buf
unfolding store
length-store [] i v = refl
length-store (b ∷ bs) zero v = refl
length-store (b ∷ bs) (suc i) v = ap suc (length-store bs i v)

module _ (dev : Device) (fuel : ℕ) where
  SameLength : List ℕ → List ℕ → Type 0
  SameLength buf buf' = length buf' ≡ length buf

  move_byte-Gives :
      (priv : Priv)
      → IsAlive dev fuel priv.base
      → (stat idx : ℕ) (buf : List ℕ)
      → Gives (SameLength buf) (move_byte dev fuel priv stat idx buf)
  unfolding move_byte SameLength
  move_byte-Gives priv alive stat idx buf =
      let P = λ (buf' : List ℕ). length buf' ≡ length buf in
      Gives-if P (has stat stat_rrdy)
        (λ _. Gives-after P (Ends-read dev byte (priv.base + reg_data)) λ v.
          Gives-after P (write_reg-Ends dev fuel priv alive stat_rrdy reg_stat)
            λ _. Gives-pure P (store buf idx v) (length-store buf idx v))
        (λ _.
          Gives-if P (has stat stat_xrdy)
            (λ _. Gives-after P (Ends-writeb (get_or buf idx 0) (priv.base + reg_data)) λ _.
              Gives-after P (write_reg-Ends dev fuel priv alive stat_xrdy reg_stat)
                λ _. Gives-pure P buf refl)
            (λ _. Gives-pure P buf refl))

  -- What moving the bytes of a buffer gives.
  Moved : List ℕ → ℕ × List ℕ → Type 0
  Moved buf (code, buf') = IsCode code × (length buf' ≡ length buf)

  move_bytes-Gives :
      (priv : Priv)
      → IsAlive dev fuel priv.base
      → (n idx : ℕ) (buf : List ℕ) → Gives (Moved buf) (move_bytes dev fuel priv idx n buf)
  unfolding move_bytes Moved SameLength
  move_bytes-Gives priv alive zero idx buf = Gives-pure (Moved buf) (0, buf) (inl refl, refl)
  move_bytes-Gives priv alive (suc n) idx buf =
      Gives-after (Moved buf) (check_error-Ends dev fuel priv alive) λ stat.
        Gives-if (Moved buf) (leb 0x8000 stat)
          (λ neg. Gives-pure (Moved buf) (widen stat, buf) (inr (ground arith), refl))
          (λ _.
            Gives-bind (SameLength buf) (Moved buf) (move_byte-Gives priv alive stat idx buf)
              λ buf' same.
                let rest = move_bytes-Gives priv alive n (idx + 1) buf' in
                record {
                  runs = λ h.
                      let (r, h', e, (code, len)) = rest.runs h in (r, h', e, (code, len ∙ same));
                })

  -- One message: the private record keeps its base, and the buffer its length.
  Sent : Priv → I2cMsg → Outcome I2cMsg → Type 0
  Sent priv msg o = IsCode o.code × (o.priv.base ≡ priv.base) × (length o.msg.buf ≡ length msg.buf)

  direct-base : (priv : Priv) (msg : I2cMsg) → (direct priv msg).0.base ≡ priv.base
  unfolding direct
  direct-base priv msg = elim (Bool-cases (has msg.flags m_rd)) [
    | inl reading ↦ rw reading refl
    | inr writing ↦ rw writing refl
  ]

  xfer_msg-Gives :
      (priv : Priv)
      → IsAlive dev fuel priv.base
      → (msg : I2cMsg) → Gives (Sent priv msg) (xfer_msg dev fuel priv msg)
  unfolding xfer_msg Moved Sent
  xfer_msg-Gives priv alive msg =
      let priv' = (direct priv msg).0 in
      let base = direct-base priv msg in
      let alive' : IsAlive dev fuel priv'.base = subst (IsAlive dev fuel) (sym base) alive in
      let P = Sent priv msg in
      let send = write_reg-Ends dev fuel priv alive in
      Gives-after P (send msg.addr reg_sa) λ _. Gives-after P (send msg.len reg_cnt) λ _.
        Gives-after P (read_reg-Ends dev fuel priv alive reg_buf) λ b.
          Gives-after P (send (bit_or b 0x4040) reg_buf) λ _.
            Gives-after P (send (direct priv msg).1 reg_con) λ _.
              Gives-bind (Moved msg.buf) P (move_bytes-Gives priv' alive' msg.len 0 msg.buf)
                λ (code, buf) (c, l). Gives-pure P _ (c, base, l)

  Sents : Priv → List I2cMsg → Outcome (List I2cMsg) → Type 0
  Sents priv msgs o = IsCode o.code × (o.priv.base ≡ priv.base) × (length o.msg ≡ length msgs)

  xfer_msgs-Gives :
      (msgs : List I2cMsg) (code : ℕ) (priv : Priv)
      → IsAlive dev fuel priv.base
      → IsCode code
      → Gives (Sents priv msgs) (xfer_msgs dev fuel code priv msgs)
  unfolding xfer_msgs Sent Sents
  xfer_msgs-Gives [] code priv alive c = Gives-pure (Sents priv []) _ (c, refl, refl)
  xfer_msgs-Gives (msg ∷ msgs) code priv alive c =
      Gives-bind (Sent priv msg) (Sents priv (msg ∷ msgs)) (xfer_msg-Gives priv alive msg)
        λ o (sent, base, len).
          Gives-if (Sents priv (msg ∷ msgs)) (o.code == 0)
            (λ _.
              let alive' : IsAlive dev fuel o.priv.base =
                subst (IsAlive dev fuel) (sym base) alive in
              Gives-bind (Sents o.priv msgs) (Sents priv (msg ∷ msgs))
                (xfer_msgs-Gives msgs 0 o.priv alive' (inl refl))
                λ rest (c', base', len').
                  Gives-pure (Sents priv (msg ∷ msgs)) _ (c', base' ∙ base, ap suc len'))
            (λ _. Gives-pure (Sents priv (msg ∷ msgs)) _ (sent, base, refl))

  -- The number of messages, or a negative int.
  unfoldable pub Answers : Priv → List I2cMsg → Outcome (List I2cMsg) → Type 0
  Answers priv msgs o =
      ((o.code ≡ length msgs) ⊎ (2 ^ 31 ≤ o.code))
      × (o.priv.base ≡ priv.base)
      × (length o.msg ≡ length msgs)

  pub xfer-Gives :
      (priv : Priv)
      → IsAlive dev fuel priv.base
      → (msg : I2cMsg) (msgs : List I2cMsg)
      → Gives (Answers priv (msg ∷ msgs)) (omap_i2c_xfer dev fuel priv (msg ∷ msgs))
  unfolding omap_i2c_xfer Answers Sents xfer_msgs
  xfer-Gives priv alive msg msgs =
      let all : List I2cMsg = msg ∷ msgs in
      let P = Answers priv all in
      Gives-after P (wait_for_bb-Ends dev fuel priv alive) λ busy.
        Gives-bind (Sents priv all) P (xfer_msgs-Gives all 0 priv alive (inl refl))
          λ o (c, base, len).
            let alive' : IsAlive dev fuel o.priv.base = subst (IsAlive dev fuel) (sym base) alive in
            Gives-after P (wait_for_bb-Ends dev fuel o.priv alive')
              λ _. Gives-pure P _ (answer o.code c, base, len)
    where
      answer :
          (code : ℕ)
          → IsCode code
          → ((if code == 0 then length (msg ∷ msgs) else code) ≡ length (msg ∷ msgs))
            ⊎ (2 ^ 31 ≤ (if code == 0 then length (msg ∷ msgs) else code))
      answer code (inl z) = inl (ground (arith, z))
      answer code (inr n) = inr (ground (arith, n))

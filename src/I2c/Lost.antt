-- ===== src/I2c/Lost.antt =====
-- src/boot/i2c.c: a whole transfer through an adapter on which a message has been read.
use miniboot.Common.{
  ℕ, zero, suc, ◌+◌, ◌^◌, ◌≡◌, refl, sym, inl, true, Option, some, List, [], ◌∷◌, ◌==◌, ltb, ◌&&◌,
}
use mathlib.Core.Path.{subst}
use miniboot.Bus.{Device}
use miniboot.Bus.Spares.{Spares, Any, Spares-pure, Spares-bind, Spares-if}
use miniboot.I2c.{Priv, reg_data, is_reading, wait_for_bb}
use miniboot.I2c.Message.{I2cMsg, xfer_msg, xfer_msgs, omap_i2c_xfer}
use miniboot.I2c.Adapter.{Xfer, omap_xfer, I2cAdapter, call_xfer, retry, i2c_transfer}
use miniboot.I2c.Ending.{IsAlive}
use miniboot.I2c.Quiet.{wait_for_bb-quiet}
use miniboot.I2c.Stuck.{Reads, xfer_msg-Spares}

-- An adapter of the controller at `base`, on which a message has been read.
pub record IsStuck (base : ℕ) (adap : I2cAdapter) : Type 0 where
  pub priv : Priv
  pub is_omap : adap.xfer ≡ omap_xfer
  pub has_priv : adap.priv ≡ some priv
  pub reading : is_reading priv ≡ true
  pub same : priv.base ≡ base

module _ (dev : Device) (fuel base : ℕ) (alive : IsAlive dev fuel base) where
  a : ℕ
  a = base + reg_data

  msg-Spares :
      (priv : Priv) (msg : I2cMsg)
      → is_reading priv ≡ true
      → priv.base ≡ base
      → Spares a (Reads base) (xfer_msg dev fuel priv msg)
  unfolding a
  msg-Spares priv msg reading same =
      subst (λ b. Spares (b + reg_data) (Reads b) (xfer_msg dev fuel priv msg)) same
        (xfer_msg-Spares dev fuel priv msg (subst (IsAlive dev fuel) (sym same) alive)
          (inl reading))

  bb-Spares : (priv : Priv) → priv.base ≡ base → Spares a Any (wait_for_bb dev fuel priv)
  unfolding a
  bb-Spares priv same =
      subst (λ b. Spares (b + reg_data) Any (wait_for_bb dev fuel priv)) same
        (wait_for_bb-quiet dev fuel priv (subst (IsAlive dev fuel) (sym same) alive))

  msgs-Spares :
      (msgs : List I2cMsg) (code : ℕ) (priv : Priv)
      → is_reading priv ≡ true
      → priv.base ≡ base
      → Spares a (Reads base) (xfer_msgs dev fuel code priv msgs)
  unfolding xfer_msgs
  msgs-Spares [] code priv reading same = Spares-pure a (Reads base) _ (reading, same)
  msgs-Spares (msg ∷ msgs) code priv reading same =
      Spares-bind a (Reads base) (Reads base) (msg-Spares priv msg reading same) λ o (r, s).
        Spares-if a (Reads base) (o.code == 0)
          (λ _.
            Spares-bind a (Reads base) (Reads base) (msgs-Spares msgs 0 o.priv r s)
              λ rest q. Spares-pure a (Reads base) _ q)
          (λ _. Spares-pure a (Reads base) _ (r, s))

  xfer-Spares :
      (priv : Priv) (msgs : List I2cMsg)
      → is_reading priv ≡ true
      → priv.base ≡ base
      → Spares a (Reads base) (omap_i2c_xfer dev fuel priv msgs)
  unfolding omap_i2c_xfer
  xfer-Spares priv msgs reading same =
      Spares-bind a Any (Reads base) (bb-Spares priv same) λ busy _.
        Spares-bind a (Reads base) (Reads base) (msgs-Spares msgs busy priv reading same)
          λ o (r, s).
            Spares-bind a Any (Reads base) (bb-Spares o.priv s)
              λ _ _. Spares-pure a (Reads base) _ (r, s)

  call-Spares :
      (f : Xfer) (p : Option Priv) (priv : Priv) (msgs : List I2cMsg)
      → f ≡ omap_xfer
      → p ≡ some priv
      → is_reading priv ≡ true
      → priv.base ≡ base
      → Spares a (Reads base) (call_xfer dev fuel f p msgs)
  unfolding call_xfer
  call-Spares f p priv msgs ef ep reading same = rw (ef, ep) (xfer-Spares priv msgs reading same)

  -- What a transfer returns: the adapter is as stuck as before.
  Kept : ℕ × I2cAdapter × List I2cMsg → Type 0
  Kept (r, adap, msgs) = IsStuck base adap

  retry-Spares :
      (n rval : ℕ) (adap : I2cAdapter) (msgs : List I2cMsg)
      → IsStuck base adap
      → Spares a Kept (retry dev fuel n rval adap msgs)
  unfolding retry Kept
  retry-Spares zero rval adap msgs stuck = Spares-pure a Kept _ stuck
  retry-Spares (suc n) rval adap msgs stuck =
      Spares-bind a (Reads base) Kept
        (call-Spares adap.xfer adap.priv stuck.priv msgs stuck.is_omap stuck.has_priv stuck.reading
          stuck.same)
        λ o (r, s).
          let stuck' : IsStuck base (record adap { priv = some o.priv }) = record {
            priv = o.priv;
            is_omap = stuck.is_omap;
            has_priv = refl;
            reading = r;
            same = s;
          } in
          Spares-if a Kept (ltb 0 o.code && ltb o.code (2 ^ 31)) (λ _. Spares-pure a Kept _ stuck')
            (λ _. retry-Spares n o.code (record adap { priv = some o.priv }) o.msg stuck')

  pub i2c_transfer-Spares :
      (unset : ℕ) (adap : I2cAdapter) (msgs : List I2cMsg)
      → IsStuck base adap
      → Spares
          (base + reg_data)
          (λ (r : ℕ × I2cAdapter × List I2cMsg). IsStuck base r.1)
          (i2c_transfer dev fuel unset adap msgs)
  unfolding i2c_transfer a Kept
  i2c_transfer-Spares unset adap msgs stuck = retry-Spares adap.retries unset adap msgs stuck

-- ===== src/I2c/Retry.antt =====
-- src/boot/i2c.c: a transfer with its retries returns.
use miniboot.Common.{
  ℕ, zero, suc, ◌^◌, ◌<◌, ◌≤◌, ◌≡◌, ◌⊎◌, refl, sym, ◌∙◌, inl, inr, Bool, true, false, Bool-cases,
  Option, some, List, [], ◌∷◌, length, ltb, ◌&&◌, arith,
}
use mathlib.Core.Path.{subst}
use miniboot.Bus.{Device, Trace, done}
use miniboot.Bus.Gives.{Gives}
use miniboot.I2c.{Priv}
use miniboot.I2c.Message.{I2cMsg, Outcome, omap_i2c_xfer}
use miniboot.I2c.Adapter.{Xfer, omap_xfer, I2cAdapter, call_xfer, retry, i2c_transfer}
use miniboot.I2c.Ending.{IsAlive}
use miniboot.I2c.Transfer.{Answers, xfer-Gives}

-- An adapter that drives the controller at `base`, with that many tries.
pub record Usable (base retries : ℕ) (adap : I2cAdapter) : Type 0 where
  pub priv : Priv
  pub is_omap : adap.xfer ≡ omap_xfer
  pub has_priv : adap.priv ≡ some priv
  pub same : priv.base ≡ base
  pub tries : adap.retries ≡ retries

abbrev is_count : ℕ → Bool
is_count code = ltb 0 code && ltb code (2 ^ 31)

module _ (dev : Device) (fuel : ℕ) where
  call_lem :
      (f : Xfer) (p : Option Priv) (priv : Priv) (msgs : List I2cMsg) (h : Trace)
      → f ≡ omap_xfer
      → p ≡ some priv
      → call_xfer dev fuel f p msgs h ≡ omap_i2c_xfer dev fuel priv msgs h
  unfolding call_xfer
  call_lem f p priv msgs h e1 e2 = rw (e1, e2) refl

  retry_done :
      (n rval : ℕ) (adap : I2cAdapter) (msgs : List I2cMsg) (o : Outcome (List I2cMsg))
      (h h' : Trace)
      → call_xfer dev fuel adap.xfer adap.priv msgs h ≡ done o h'
      → is_count o.code ≡ true
      → retry dev fuel (suc n) rval adap msgs h
        ≡ done (o.code, record adap { priv = some o.priv }, o.msg) h'
  unfolding retry
  retry_done n rval adap msgs o h h' e t = rw (e, t) refl

  retry_again :
      (n rval : ℕ) (adap : I2cAdapter) (msgs : List I2cMsg) (o : Outcome (List I2cMsg))
      (h h' : Trace)
      → call_xfer dev fuel adap.xfer adap.priv msgs h ≡ done o h'
      → is_count o.code ≡ false
      → retry dev fuel (suc n) rval adap msgs h
        ≡ retry dev fuel n o.code (record adap { priv = some o.priv }) o.msg h'
  unfolding retry
  retry_again n rval adap msgs o h h' e t = rw (e, t) refl

  retry_last :
      (rval : ℕ) (adap : I2cAdapter) (msgs : List I2cMsg) (h : Trace)
      → retry dev fuel 0 rval adap msgs h ≡ done (rval, adap, msgs) h
  unfolding retry
  retry_last rval adap msgs h = refl

  some_msgs :
      (priv : Priv)
      → IsAlive dev fuel priv.base
      → (msgs : List I2cMsg) → 0 < length msgs
      → Gives (Answers dev fuel priv msgs) (omap_i2c_xfer dev fuel priv msgs)
  some_msgs priv alive [] pos = absurd (omega arith)
  some_msgs priv alive (m ∷ ms) pos = xfer-Gives dev fuel priv alive m ms

  -- `rval` is what the round before has returned, once there has been one.
  retry_returns :
      (n rval base retries : ℕ) (adap : I2cAdapter) (msgs : List I2cMsg) (count : ℕ)
      → Usable base retries adap
      → IsAlive dev fuel base
      → length msgs ≡ count
      → 0 < count
      → (0 < n) ⊎ ((rval ≡ count) ⊎ (2 ^ 31 ≤ rval))
      → (h : Trace)
      → (r : ℕ) × (adap' : I2cAdapter) × (msgs' : List I2cMsg) × (h' : Trace) × (retry dev fuel n
            rval adap msgs h
          ≡ done (r, adap', msgs') h')
        × ((r ≡ count) ⊎ (2 ^ 31 ≤ r))
        × (length msgs' ≡ count)
        × Usable base retries adap'
  unfolding Answers
  retry_returns zero rval base retries adap msgs count usable alive len pos (inl some_left) h =
      absurd (omega arith)
  retry_returns zero rval base retries adap msgs count usable alive len pos (inr known) h =
      (rval, adap, msgs, h, retry_last rval adap msgs h, known, len, usable)
  retry_returns (suc n) rval base retries adap msgs count usable alive len pos left h =
      let priv = usable.priv in
      let alive' : IsAlive dev fuel priv.base = subst (IsAlive dev fuel) (sym usable.same) alive in
      let (o, h1, e, (code, based, olen)) =
        (some_msgs priv alive' msgs (omega (arith, len))).runs h in
      let e1 = call_lem adap.xfer adap.priv priv msgs h usable.is_omap usable.has_priv ∙ e in
      let code' : (o.code ≡ count) ⊎ (2 ^ 31 ≤ o.code) =
        subst (λ k. (o.code ≡ k) ⊎ (2 ^ 31 ≤ o.code)) len code in
      let adap1 : I2cAdapter = record adap { priv = some o.priv } in
      let use1 : Usable base retries adap1 = record {
        priv = o.priv;
        is_omap = usable.is_omap;
        has_priv = refl;
        same = based ∙ usable.same;
        tries = usable.tries;
      } in
      elim (Bool-cases (is_count o.code)) [
        | inl good ↦ (
          o.code,
          adap1,
          o.msg,
          h1,
          retry_done n rval adap msgs o h h1 e1 good,
          code',
          olen ∙ len,
          use1,
        )
        | inr again ↦
            let (r, adap', msgs', h2, e2, c, l, x) =
              retry_returns n o.code base retries adap1 o.msg count use1 alive (olen ∙ len) pos
                (inr code') h1 in
            (r, adap', msgs', h2, retry_again n rval adap msgs o h h1 e1 again ∙ e2, c, l, x)
      ]

  -- Let the timer advance, and the controller report the end of its reset. A transfer of at least
  -- one message through an adapter that has the driver of this file and at least one try then
  -- returns, whatever the bus does: the number of the messages, or a negative number. It gives
  -- back as many messages as it was given, and an adapter that the same holds of.
  pub i2c_transfer_returns :
      (base retries : ℕ) (adap : I2cAdapter)
      → Usable base retries adap
      → 0 < retries
      → IsAlive dev fuel base
      → (unset : ℕ) (msgs : List I2cMsg) → 0 < length msgs
      → (h : Trace)
      → (r : ℕ) × (adap' : I2cAdapter) × (msgs' : List I2cMsg) × (h' : Trace) × (i2c_transfer dev
            fuel unset adap msgs h
          ≡ done (r, adap', msgs') h')
        × ((r ≡ length msgs) ⊎ (2 ^ 31 ≤ r))
        × (length msgs' ≡ length msgs)
        × Usable base retries adap'
  unfolding i2c_transfer
  i2c_transfer_returns base retries adap usable pos alive unset msgs some_msg h =
      retry_returns adap.retries unset base retries adap msgs (length msgs) usable alive refl
        some_msg (inl (omega (arith, usable.tries))) h

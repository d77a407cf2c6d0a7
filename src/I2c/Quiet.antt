-- ===== src/I2c/Quiet.antt =====
-- src/boot/i2c.c: while `priv->flags` has I2C_M_RD set, the loops of a transfer write no data.
use miniboot.Common.{
  ℕ, zero, suc, ◌+◌, ◌/◌, ◌%◌, ◌≤◌, ◌≡◌, ◌⊎◌, refl, ◌∙◌, ap, inl, inr, true, false, Bool-cases,
  List, [], ◌∷◌, bit_and, bit_or, ◌==◌, leb, arith,
}
use miniboot.Common.Bits.{bit_and_step, bit_and-le}
use miniboot.Bus.{Device, Trace, done, byte, reply, rd, half, word}
use miniboot.Bus.Spares.{
  writes_to, Spares, Any, Spares-pure, Spares-bind, Spares-if, Spares-read, Spares-writew,
}
use miniboot.Timer.{timer_tcrr, udelay}
use miniboot.Timer.Wait.{counter_reads, udelay-Delayed, udelay_returns}
use miniboot.I2c.{wait_loop, wait_for_bb, stat_bb}
use miniboot.I2c.{
  Priv, reg_sysc, reg_status_raw, reg_stat, reg_syss, reg_data, reg_con, reg_psc, reg_scll,
  reg_sclh, con_en, con_stp, stat_rrdy, stat_xrdy, stat_nack, stat_lost, awaited, kept, has,
  is_reading, write_reg, read_reg, setup_clk, reset_loop, i2c_reset, omap_i2c_init, await_status,
  give_up, judge, check_error,
}
use miniboot.I2c.Message.{store, widen, move_byte, move_bytes}
use miniboot.I2c.Ending.{IsAlive, reset_loop-Ends}

-- The bits that are kept when reading do not have XRDY among them.
no_xrdy : (s : ℕ) → has (bit_and s (kept true)) stat_xrdy ≡ false
no_xrdy s =
    let x = bit_and s 0xBFEF in
    let clear : x / 2 / 2 / 2 / 2 % 2 ≡ 0 = omega (
      arith,
      bit_and_step s 0xBFEF,
      bit_and_step (s / 2) 0x5FF7,
      bit_and_step (s / 2 / 2) 0x2FFB,
      bit_and_step (s / 2 / 2 / 2) 0x17FD,
      bit_and_step (s / 2 / 2 / 2 / 2) 0xBFE,
    ) in
    let none : bit_and x 0x10 ≡ 0 = omega (
      arith,
      bit_and_step x 0x10,
      bit_and_step (x / 2) 8,
      bit_and_step (x / 2 / 2) 4,
      bit_and_step (x / 2 / 2 / 2) 2,
      bit_and_step (x / 2 / 2 / 2 / 2) 1,
      bit_and-le (x / 2 / 2 / 2 / 2 / 2) 0,
    ) in
    ground (arith, none)

writes_to-counter_reads :
    (a : ℕ) (vs : List ℕ) (h : Trace) → writes_to a (counter_reads vs h) ≡ writes_to a h
unfolding writes_to
writes_to-counter_reads a [] h = refl
writes_to-counter_reads a (v ∷ vs) h = writes_to-counter_reads a vs (rd word timer_tcrr v ∷ h)

-- What `check_error` returns then: a status without XRDY, or a negative s16.
IsReadStatus : ℕ → Type 0
IsReadStatus s = (has s stat_xrdy ≡ false) ⊎ (0x8000 ≤ s)

module _ (dev : Device) (fuel : ℕ) (priv : Priv) (alive : IsAlive dev fuel priv.base) where
  data_reg : ℕ
  data_reg = priv.base + reg_data

  udelay-Spares : (usec : ℕ) → Spares data_reg Any (udelay dev fuel usec)
  udelay-Spares usec = record {
    runs = λ h.
        let (h', e, q) = udelay_returns dev fuel alive.advances alive.ticks usec h in
        let d = udelay-Delayed dev fuel usec e in
        (tt, h', e, tt, rw d.trace (writes_to-counter_reads data_reg (d.first ∷ d.values) h));
  }

  write_reg-Spares :
      (v r : ℕ) → (r == reg_data) ≡ false → Spares data_reg Any (write_reg dev fuel priv v r)
  unfolding write_reg data_reg
  write_reg-Spares v r other =
      Spares-writew (priv.base + reg_data) v (priv.base + r) (λ e. ground (arith, e, other))

  read_reg-Spares : (r : ℕ) → Spares data_reg Any (read_reg dev fuel priv r)
  unfolding read_reg
  read_reg-Spares r = Spares-read data_reg dev half (priv.base + r)

  setup_clk-Spares : (s i b : ℕ) → Spares data_reg Any (setup_clk dev fuel priv s i b)
  unfolding setup_clk
  setup_clk-Spares s i b = Spares-bind data_reg Any Any (write_reg-Spares _ reg_psc refl) λ _ _.
      Spares-bind data_reg Any Any (write_reg-Spares _ reg_scll refl)
        λ _ _. write_reg-Spares _ reg_sclh refl

  omap_i2c_init-Spares : Spares data_reg Any (omap_i2c_init dev fuel priv)
  unfolding omap_i2c_init
  omap_i2c_init-Spares = Spares-bind data_reg Any Any (write_reg-Spares 0 reg_con refl) λ _ _.
      Spares-bind data_reg Any Any (setup_clk-Spares 48000000 24000000 100000)
        λ _ _. write_reg-Spares con_en reg_con refl

  reset_loop-writes_to :
      (n : ℕ) (h h' : Trace)
      → reset_loop dev fuel priv n h ≡ done tt h'
      → writes_to data_reg h' ≡ writes_to data_reg h
  unfolding reset_loop read_reg writes_to
  reset_loop-writes_to zero h h' e = cc
  reset_loop-writes_to (suc n) h h' e =
      let v = reply dev half (priv.base + reg_syss) h in
      let h1 : Trace = rd half (priv.base + reg_syss) v ∷ h in
      elim (Bool-cases (has v 1)) [
        | inl ready ↦
            let stop : done tt h1 ≡ done tt h' = rw ready at e in
            let same : h' ≡ h1 = ground (arith, stop) in ap (writes_to data_reg) same
        | inr busy ↦
            let (h2, e2, q) = udelay_returns dev fuel alive.advances alive.ticks 1000 h1 in
            let d = udelay-Delayed dev fuel 1000 e2 in
            reset_loop-writes_to n h2 h' (rw (busy, e2) at e)
            ∙ rw d.trace (writes_to-counter_reads data_reg (d.first ∷ d.values) h1)
      ]

  reset_loop-Spares : Spares data_reg Any (reset_loop dev fuel priv fuel)
  reset_loop-Spares = record {
    runs = λ h.
        let (u, h', e) = (reset_loop-Ends dev fuel priv alive).runs h in
        (tt, h', e, tt, reset_loop-writes_to fuel h h' e);
  }

  i2c_reset-Spares : Spares data_reg Any (i2c_reset dev fuel priv)
  unfolding i2c_reset
  i2c_reset-Spares = Spares-bind data_reg Any Any (read_reg-Spares reg_sysc) λ sysc _.
      Spares-bind data_reg Any Any (read_reg-Spares reg_con) λ con _.
        Spares-bind data_reg Any Any (write_reg-Spares _ reg_con refl) λ _ _.
          Spares-bind data_reg Any Any (write_reg-Spares 0x2 reg_sysc refl) λ _ _.
            Spares-bind data_reg Any Any (write_reg-Spares con_en reg_con refl) λ _ _.
              Spares-bind data_reg Any Any reset_loop-Spares
                λ _ _. write_reg-Spares sysc reg_sysc refl

  give_up-Spares : Spares data_reg IsReadStatus (give_up dev fuel priv)
  unfolding give_up IsReadStatus
  give_up-Spares =
      Spares-bind data_reg Any IsReadStatus (write_reg-Spares 0xFFFF reg_stat refl)
        λ _ _. Spares-pure data_reg IsReadStatus 0xffff (inr (omega arith))

  clear_status : (stat : ℕ) → has stat stat_xrdy ≡ false → IsReadStatus stat
  unfolding IsReadStatus
  clear_status stat clear = inl clear

  judge-Spares :
      (stat timeout : ℕ)
      → has stat stat_xrdy ≡ false
      → Spares data_reg IsReadStatus (judge dev fuel priv stat timeout)
  unfolding judge
  judge-Spares stat timeout clear =
      let P = IsReadStatus in
      Spares-if data_reg P (has stat stat_lost)
        (λ _.
          Spares-bind data_reg Any P
            (Spares-bind data_reg Any Any i2c_reset-Spares λ _ _. omap_i2c_init-Spares)
            λ _ _. give_up-Spares)
        (λ _.
          Spares-if data_reg P (has stat stat_nack)
            (λ _. Spares-bind data_reg Any P (read_reg-Spares reg_con) λ con _.
              Spares-bind data_reg Any P (write_reg-Spares (bit_or con con_stp) reg_con refl)
                λ _ _. give_up-Spares)
            (λ _.
              Spares-if data_reg P (timeout == 0) (λ _. give_up-Spares)
                (λ _. Spares-pure data_reg P stat (clear_status stat clear))))

  await_status-Spares : (n : ℕ) → Spares data_reg Any (await_status dev fuel priv n)
  unfolding await_status
  await_status-Spares zero = Spares-bind data_reg Any Any (udelay-Spares 200) λ _ _.
      Spares-bind data_reg Any Any (read_reg-Spares reg_status_raw)
        λ s _. Spares-pure data_reg Any (s, 0) tt
  await_status-Spares (suc n) = Spares-bind data_reg Any Any (udelay-Spares 200) λ _ _.
      Spares-bind data_reg Any Any (read_reg-Spares reg_status_raw) λ s _.
        Spares-if data_reg Any (has s (awaited (is_reading priv)))
          (λ _. Spares-pure data_reg Any (s, suc n) tt) (λ _. await_status-Spares n)

  check_error-Spares :
      is_reading priv ≡ true → Spares data_reg IsReadStatus (check_error dev fuel priv)
  unfolding check_error
  check_error-Spares reading =
      Spares-bind data_reg Any IsReadStatus (await_status-Spares 1000)
        λ (s, t) _. rw reading (judge-Spares (bit_and s (kept true)) t (no_xrdy s))

  move_byte-Spares :
      (stat : ℕ)
      → IsReadStatus stat
      → leb 0x8000 stat ≡ false
      → (idx : ℕ) (buf : List ℕ) → Spares data_reg Any (move_byte dev fuel priv stat idx buf)
  unfolding move_byte IsReadStatus data_reg
  move_byte-Spares stat status small idx buf =
      let a = priv.base + reg_data in
      let clear : has stat stat_xrdy ≡ false = elim status [
        | inl c ↦ c
        | inr big ↦ absurd (ground (arith, small, big))
      ] in
      Spares-if a Any (has stat stat_rrdy)
        (λ _. Spares-bind a Any Any (Spares-read a dev byte (priv.base + reg_data)) λ v _.
          Spares-bind a Any Any (write_reg-Spares stat_rrdy reg_stat refl)
            λ _ _. Spares-pure a Any (store buf idx v) tt)
        (λ _. rw clear (Spares-pure a Any buf tt))

  move_bytes-Spares :
      is_reading priv ≡ true
      → (n idx : ℕ) (buf : List ℕ) → Spares data_reg Any (move_bytes dev fuel priv idx n buf)
  unfolding move_bytes move_byte
  move_bytes-Spares reading zero idx buf = Spares-pure data_reg Any (0, buf) tt
  move_bytes-Spares reading (suc n) idx buf =
      Spares-bind data_reg IsReadStatus Any (check_error-Spares reading) λ stat status.
        Spares-if data_reg Any (leb 0x8000 stat)
          (λ _. Spares-pure data_reg Any (widen stat, buf) tt)
          (λ small.
            Spares-bind data_reg Any Any (move_byte-Spares stat status small idx buf)
              λ buf' _. move_bytes-Spares reading n (idx + 1) buf')

  pub move_bytes-quiet :
      is_reading priv ≡ true
      → (n idx : ℕ) (buf : List ℕ)
      → Spares (priv.base + reg_data) Any (move_bytes dev fuel priv idx n buf)
  unfolding data_reg
  move_bytes-quiet reading n idx buf = move_bytes-Spares reading n idx buf

  pub write_reg-quiet :
      (v r : ℕ)
      → (r == reg_data) ≡ false
      → Spares (priv.base + reg_data) Any (write_reg dev fuel priv v r)
  unfolding data_reg
  write_reg-quiet v r other = write_reg-Spares v r other

  pub read_reg-quiet : (r : ℕ) → Spares (priv.base + reg_data) Any (read_reg dev fuel priv r)
  unfolding data_reg
  read_reg-quiet r = read_reg-Spares r

  wait_loop-Spares : (n : ℕ) → Spares data_reg Any (wait_loop dev fuel priv n)
  unfolding wait_loop
  wait_loop-Spares zero = Spares-bind data_reg Any Any (read_reg-Spares reg_status_raw) λ s _.
      Spares-if data_reg Any (has s stat_bb)
        (λ _.
          Spares-bind data_reg Any Any (udelay-Spares 1000) λ _ _. Spares-pure data_reg Any 1 tt)
        (λ _. Spares-pure data_reg Any 0 tt)
  wait_loop-Spares (suc n) = Spares-bind data_reg Any Any (read_reg-Spares reg_status_raw) λ s _.
      Spares-if data_reg Any (has s stat_bb)
        (λ _. Spares-bind data_reg Any Any (udelay-Spares 1000) λ _ _. wait_loop-Spares n)
        (λ _. Spares-pure data_reg Any 0 tt)

  pub wait_for_bb-quiet : Spares (priv.base + reg_data) Any (wait_for_bb dev fuel priv)
  unfolding wait_for_bb data_reg
  wait_for_bb-quiet = wait_loop-Spares 1000

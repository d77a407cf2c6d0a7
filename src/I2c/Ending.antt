-- ===== src/I2c/Ending.antt =====
-- src/boot/i2c.c: the waiting loops and the error handling come to an end.
use miniboot.Common.{
  ℕ, zero, suc, ◌+◌, ◌<◌, ◌≤◌, ◌≡◌, ◌≢◌, refl, ◌∙◌, inl, inr, true, false, Bool-cases, List, [],
  ◌∷◌, ◌==◌, leb, if◌then◌else◌, arith,
}
use miniboot.Bus.{Device, Trace, done, reply, rd, wr, pause, half, word}
use miniboot.Bus.Ends.{Ends, Ends-pure, Ends-bind, Ends-if, Ends-read, Ends-writew, ends}
use miniboot.Timer.{timer_tcrr, udelay}
use miniboot.Timer.Wait.{Advances, max_ticks, counter_reads, udelay-Delayed, udelay_returns}
use miniboot.I2c.{
  Priv, reg_syss, reg_status_raw, stat_bb, awaited, is_reading, has, write_reg, read_reg, wait_loop,
  wait_for_bb, setup_clk, reset_loop, i2c_reset, omap_i2c_init, await_status, give_up, judge,
  check_error,
}

-- How often a register has been read since the last write.
unfoldable pub reads_since : ℕ → Trace → ℕ
reads_since a [] = 0
reads_since a (rd w b v ∷ h) = if b == a then suc (reads_since a h) else reads_since a h
reads_since a (wr w b v ∷ h) = 0
reads_since a (pause n ∷ h) = reads_since a h

-- A delay does not count as reading another register.
reads_since-counter_reads :
    (a : ℕ) (vs : List ℕ) (h : Trace)
    → timer_tcrr ≢ a
    → reads_since a (counter_reads vs h) ≡ reads_since a h
unfolding reads_since
reads_since-counter_reads a [] h ne = refl
reads_since-counter_reads a (v ∷ vs) h ne =
    reads_since-counter_reads a vs (rd word timer_tcrr v ∷ h) ne ∙ ground (arith, ne)

-- The controller reports the end of a reset by the time its status has been read `n` times.
abbrev pub Resets : Device → ℕ → ℕ → Type 0
Resets dev base n =
    (h : Trace)
    → n ≤ reads_since (base + reg_syss) h
    → has (reply dev half (base + reg_syss) h) 1 ≡ true

-- What is asked of the hardware, and of the fuel.
pub record IsAlive (dev : Device) (fuel base : ℕ) : Type 0 where
  pub advances : Advances dev
  pub ticks : max_ticks < fuel
  pub tries : ℕ
  pub resets : Resets dev base tries
  pub enough : tries < fuel
  pub other : timer_tcrr ≢ base + reg_syss

module _ (dev : Device) (fuel : ℕ) (priv : Priv) (alive : IsAlive dev fuel priv.base) where
  udelay-Ends : (usec : ℕ) → Ends (udelay dev fuel usec)
  udelay-Ends usec = record {
    runs = λ h.
        let (h', e, q) = udelay_returns dev fuel alive.advances alive.ticks usec h in (tt, h', e);
  }

  pub write_reg-Ends : (v r : ℕ) → Ends (write_reg dev fuel priv v r)
  unfolding write_reg
  write_reg-Ends v r = Ends-writew v (priv.base + r)

  pub read_reg-Ends : (r : ℕ) → Ends (read_reg dev fuel priv r)
  unfolding read_reg
  read_reg-Ends r = Ends-read dev half (priv.base + r)

  wait_loop-Ends : (n : ℕ) → Ends (wait_loop dev fuel priv n)
  unfolding wait_loop
  wait_loop-Ends zero = search (ends, read_reg-Ends, udelay-Ends)
  wait_loop-Ends (suc n) = Ends-bind (read_reg-Ends reg_status_raw) λ s.
      Ends-if (has s stat_bb) (Ends-bind (udelay-Ends 1000) λ _. wait_loop-Ends n) (Ends-pure 0)

  pub wait_for_bb-Ends : Ends (wait_for_bb dev fuel priv)
  unfolding wait_for_bb
  wait_for_bb-Ends = wait_loop-Ends 1000

  setup_clk-Ends : (s i b : ℕ) → Ends (setup_clk dev fuel priv s i b)
  unfolding setup_clk
  setup_clk-Ends s i b = search (ends, write_reg-Ends)

  pub omap_i2c_init-Ends : Ends (omap_i2c_init dev fuel priv)
  unfolding omap_i2c_init
  omap_i2c_init-Ends = search (ends, write_reg-Ends, setup_clk-Ends)

  not_yet :
      (h : Trace)
      → has (reply dev half (priv.base + reg_syss) h) 1 ≡ false
      → reads_since (priv.base + reg_syss) h < alive.tries
  not_yet h busy = elim (Bool-cases (leb alive.tries (reads_since (priv.base + reg_syss) h))) [
    | inl many ↦ cc (alive.resets h (ground arith))
    | inr few ↦ ground arith
  ]

  reads_since_delay :
      (h h' : Trace)
      → udelay dev fuel 1000 h ≡ done tt h'
      → reads_since (priv.base + reg_syss) h' ≡ reads_since (priv.base + reg_syss) h
  reads_since_delay h h' e =
      let d = udelay-Delayed dev fuel 1000 e in
      rw d.trace
        (reads_since-counter_reads (priv.base + reg_syss) (d.first ∷ d.values) h alive.other)

  pub reset_loop_returns :
      (n : ℕ) (h : Trace)
      → 0 < n
      → alive.tries < n + reads_since (priv.base + reg_syss) h
      → (h' : Trace) × (reset_loop dev fuel priv n h ≡ done tt h')
  unfolding reset_loop read_reg reads_since
  reset_loop_returns zero h pos enough = absurd (omega arith)
  reset_loop_returns (suc n) h pos enough =
      let v = reply dev half (priv.base + reg_syss) h in
      let h1 : Trace = rd half (priv.base + reg_syss) v ∷ h in
      elim (Bool-cases (has v 1)) [
        | inl ready ↦ (h1, rw ready)
        | inr busy ↦
            let (h2, e2, q) = udelay_returns dev fuel alive.advances alive.ticks 1000 h1 in
            let few = not_yet h busy in
            let one_more : reads_since (priv.base + reg_syss) h1
                ≡ suc (reads_since (priv.base + reg_syss) h) =
              ground arith in
            let (h3, e3) =
              reset_loop_returns n h2 (omega arith)
                (omega (arith, reads_since_delay h1 h2 e2, one_more)) in
            (h3, rw (busy, e2) e3)
      ]

  pub reset_loop-Ends : Ends (reset_loop dev fuel priv fuel)
  reset_loop-Ends = record {
    runs = λ h.
        let (h', e) =
          reset_loop_returns fuel h (omega (arith, alive.enough)) (omega (arith, alive.enough)) in
        (tt, h', e);
  }

  i2c_reset-Ends : Ends (i2c_reset dev fuel priv)
  unfolding i2c_reset
  i2c_reset-Ends = search (ends, read_reg-Ends, write_reg-Ends, reset_loop-Ends) depth 9

  give_up-Ends : Ends (give_up dev fuel priv)
  unfolding give_up
  give_up-Ends = search (ends, write_reg-Ends)

  judge-Ends : (s t : ℕ) → Ends (judge dev fuel priv s t)
  unfolding judge
  judge-Ends s t =
      search (ends, read_reg-Ends, write_reg-Ends, i2c_reset-Ends, omap_i2c_init-Ends, give_up-Ends)
        depth 7

  await_status-Ends : (n : ℕ) → Ends (await_status dev fuel priv n)
  unfolding await_status
  await_status-Ends zero = search (ends, read_reg-Ends, udelay-Ends)
  await_status-Ends (suc n) = Ends-bind (udelay-Ends 200) λ _.
      Ends-bind (read_reg-Ends reg_status_raw) λ s.
        Ends-if (has s (awaited (is_reading priv))) (Ends-pure (s, suc n)) (await_status-Ends n)

  pub check_error-Ends : Ends (check_error dev fuel priv)
  unfolding check_error
  check_error-Ends = Ends-bind (await_status-Ends 1000) λ (s, t). judge-Ends _ t

-- ===== src/Clock/Dpll.antt =====
-- src/boot/clock.c: the order in which `do_setup_dpll` reprograms a PLL.
use miniboot.Common.{
  ℕ, ◌/◌, ◌%◌, ◌^◌, ◌<◌, ◌≡◌, refl, Bool, true, false, inl, inr, Bool-cases, not, some, List, [],
  ◌∷◌, arith, bit_and, bit_or, if◌then◌else◌,
}
use miniboot.Common.Bits.{clear_set_three}
use miniboot.Bus.{done, Device, Trace, reply, rd, wr, word, writes, last_written}
use miniboot.Bus.Poll.{Settles, Polled, Polled-writes, poll-Settles}
use miniboot.Clock.{
  is_set, is_locked, post_dividers, setup_post_dividers, clksel, bypass_dpll, lock_dpll,
  do_setup_dpll, en_lock, en_mn_bypass,
}
use miniboot.Clock.Tables.{DpllRegs, DpllParams}

-- What the post-dividers of a PLL get, newest first, in front of the writes `ws`.
unfoldable pub divider_writes : List ℕ → List ℕ → Trace → Trace
divider_writes [] rs ws = ws
divider_writes (m ∷ ms) [] ws = ws
divider_writes (m ∷ ms) (r ∷ rs) ws =
    divider_writes ms rs (if is_set m then wr word r (m % 2 ^ 32) ∷ ws else ws)

-- A value that is waited for when the lock bit is to be set, or to be clear.
abbrev pub waits_for : Bool → ℕ → Bool
waits_for true status = not (is_locked status)
waits_for false status = is_locked status

-- The PLL has been switched to `mode` by these accesses and no others: its CM_CLKMODE was read, and
-- written with the last three bits replaced, and then its status was read until its lock bit was as
-- it should be.
pub record Switched (dev : Device) (regs : DpllRegs) (mode : ℕ) (lock : Bool) (h h' : Trace)
    : Type 0 where
  pub old : ℕ
  pub value : ℕ
  pub en_field : value % 8 ≡ mode
  pub others : value / 8 ≡ old / 8
  pub status : ℕ
  pub polled :
      Polled dev regs.cm_idlest_dpll
        (waits_for lock)
        (wr word regs.cm_clkmode_dpll value ∷ rd word regs.cm_clkmode_dpll old ∷ h)
        status
        h'

pub Switched-writes :
    {dev : Device} {regs : DpllRegs} {mode : ℕ} {lock : Bool} {h h' : Trace}
    (s : Switched dev regs mode lock h h')
    → writes h' ≡ wr word regs.cm_clkmode_dpll s.value ∷ writes h
unfolding writes
Switched-writes {dev} {regs} {mode} {lock} s =
    Polled-writes dev regs.cm_idlest_dpll (waits_for lock) s.polled

-- The accesses of a reprogramming, in their order and with nothing in between: M and N are read, the
-- PLL is switched to bypass, M and N and the dividers are written, and the PLL is switched to lock.
pub record Programmed (dev : Device) (regs : DpllRegs) (params : DpllParams) (h h' : Trace)
    : Type 0 where
  pub old : ℕ
  pub answered : old ≡ reply dev word regs.cm_clksel_dpll h
  pub bypassed : Trace
  pub bypass : Switched dev regs en_mn_bypass false (rd word regs.cm_clksel_dpll old ∷ h) bypassed
  pub lock :
      Switched dev regs en_lock true
        (divider_writes params.m2 regs.cm_div_m2_dpll
          (wr word regs.cm_clksel_dpll (clksel old params % 2 ^ 32) ∷ bypassed))
        h'

module _ (dev : Device) (fuel : ℕ) where
  -- The status of the PLL follows the mode that was last written, within the turns of a loop.
  abbrev pub Tracks : DpllRegs → Type 0
  Tracks regs =
      (h : Trace) (v : ℕ)
      → last_written regs.cm_clkmode_dpll h ≡ some v
      → (v % 8 ≡ en_mn_bypass → Settles dev regs.cm_idlest_dpll is_locked fuel h)
        × (v % 8 ≡ en_lock → Settles dev regs.cm_idlest_dpll (λ s. not (is_locked s)) fuel h)

  -- The trace when the mode has been written, and the value.
  abbrev new_mode : DpllRegs → ℕ → Trace → ℕ
  new_mode regs mode h =
      bit_or (bit_and (reply dev word regs.cm_clkmode_dpll h) 0xffff_fff8) mode % 2 ^ 32

  abbrev mode_set : DpllRegs → ℕ → Trace → Trace
  mode_set regs mode h =
      wr word regs.cm_clkmode_dpll (new_mode regs mode h)
      ∷ rd word regs.cm_clkmode_dpll (reply dev word regs.cm_clkmode_dpll h)
      ∷ h

  new_mode-div :
      (regs : DpllRegs) (mode : ℕ) (h : Trace)
      → mode < 8
      → new_mode regs mode h / 8 ≡ reply dev word regs.cm_clkmode_dpll h / 8
  new_mode-div regs mode h lt =
      omega (arith, clear_set_three (reply dev word regs.cm_clkmode_dpll h) mode (omega arith) lt)

  new_mode-mod :
      (regs : DpllRegs) (mode : ℕ) (h : Trace) → mode < 8 → new_mode regs mode h % 8 ≡ mode
  new_mode-mod regs mode h lt =
      omega (arith, clear_set_three (reply dev word regs.cm_clkmode_dpll h) mode (omega arith) lt)

  last_written-mode_set :
      (regs : DpllRegs) (mode : ℕ) (h : Trace)
      → last_written regs.cm_clkmode_dpll (mode_set regs mode h) ≡ some (new_mode regs mode h)
  unfolding last_written
  last_written-mode_set regs mode h = ground arith

  Polled-Switched :
      (regs : DpllRegs) (mode : ℕ) (lock : Bool) {h : Trace} {s : ℕ} {h' : Trace}
      → mode < 8
      → Polled dev regs.cm_idlest_dpll (waits_for lock) (mode_set regs mode h) s h'
      → Switched dev regs mode lock h h'
  Polled-Switched regs mode lock {h} {s} lt p = record {
    old = reply dev word regs.cm_clkmode_dpll h;
    value = new_mode regs mode h;
    en_field = new_mode-mod regs mode h lt;
    others = new_mode-div regs mode h lt;
    status = s;
    polled = p;
  }

  bypass_dpll-Switched :
      (regs : DpllRegs)
      → Tracks regs
      → (h : Trace)
      → (h' : Trace) × (bypass_dpll dev fuel regs h ≡ done tt h')
        × Switched dev regs en_mn_bypass false h h'
  unfolding bypass_dpll
  bypass_dpll-Switched regs tracks h =
      let (s, h', e, p) = poll-Settles dev regs.cm_idlest_dpll is_locked (
        (tracks (mode_set regs 4 h) (new_mode regs 4 h) (last_written-mode_set regs 4 h)).0
          (new_mode-mod regs 4 h (omega arith))) in
      (h', rw e, Polled-Switched regs 4 false (omega arith) p)

  lock_dpll-Switched :
      (regs : DpllRegs)
      → Tracks regs
      → (h : Trace)
      → (h' : Trace) × (lock_dpll dev fuel regs h ≡ done tt h')
        × Switched dev regs en_lock true h h'
  unfolding lock_dpll
  lock_dpll-Switched regs tracks h =
      let (s, h', e, p) =
        poll-Settles dev regs.cm_idlest_dpll (λ s. not (is_locked s))
          ((tracks (mode_set regs 7 h) (new_mode regs 7 h) (last_written-mode_set regs 7 h)).1
            (new_mode-mod regs 7 h (omega arith))) in
      (h', rw e, Polled-Switched regs 7 true (omega arith) p)

post_dividers_lem :
    (ms rs : List ℕ) (h : Trace) → post_dividers ms rs h ≡ done tt (divider_writes ms rs h)
unfolding post_dividers divider_writes
post_dividers_lem [] rs h = refl
post_dividers_lem (m ∷ ms) [] h = refl
post_dividers_lem (m ∷ ms) (r ∷ rs) h = elim (Bool-cases (is_set m)) [
  | inl set ↦ rw set (post_dividers_lem ms rs (wr word r (m % 2 ^ 32) ∷ h))
  | inr unset ↦ rw unset (post_dividers_lem ms rs h)
]

pub writes-divider_writes :
    (ms rs : List ℕ) (h : Trace) → writes (divider_writes ms rs h) ≡ divider_writes ms rs (writes h)
unfolding divider_writes writes
writes-divider_writes [] rs h = refl
writes-divider_writes (m ∷ ms) [] h = refl
writes-divider_writes (m ∷ ms) (r ∷ rs) h = elim (Bool-cases (is_set m)) [
  | inl set ↦ rw set (writes-divider_writes ms rs (wr word r (m % 2 ^ 32) ∷ h))
  | inr unset ↦ rw unset (writes-divider_writes ms rs h)
]

-- If the PLL's status register follows the mode that is written, `do_setup_dpll` returns. What it
-- has done is exactly this: it has read M and N; has read the mode register and written it with the
-- bypass mode in its last three bits and the other bits as read; has read the status until the lock
-- bit was clear; only then has written the new M and N and the dividers that are set, in order; has
-- written the mode register in the same way with the lock mode; and has read the status until the
-- lock bit was set.
pub do_setup_dpll-Programmed :
    (dev : Device) (fuel : ℕ) (regs : DpllRegs) (params : DpllParams)
    → Tracks dev fuel regs
    → (h : Trace)
    → (h' : Trace) × (do_setup_dpll dev fuel regs params h ≡ done tt h')
      × Programmed dev regs params h h'
unfolding do_setup_dpll setup_post_dividers
do_setup_dpll-Programmed dev fuel regs params tracks h =
    let old = reply dev word regs.cm_clksel_dpll h in
    let (h1, e1, s1) =
      bypass_dpll-Switched dev fuel regs tracks (rd word regs.cm_clksel_dpll old ∷ h) in
    let set : Trace = wr word regs.cm_clksel_dpll (clksel old params % 2 ^ 32) ∷ h1 in
    let h2 = divider_writes params.m2 regs.cm_div_m2_dpll set in
    let (h3, e3, s3) = lock_dpll-Switched dev fuel regs tracks h2 in
    (
      h3,
      rw (e1, post_dividers_lem params.m2 regs.cm_div_m2_dpll set) e3,
      record { old = old; answered = refl; bypassed = h1; bypass = s1; lock = s3 },
    )

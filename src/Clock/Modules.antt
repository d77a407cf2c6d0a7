-- ===== src/Clock/Modules.antt =====
-- src/boot/clock.c: `enable_basic_clocks` leaves every listed domain and module enabled.
use miniboot.Common.{
  ℕ, ◌%◌, ◌^◌, ◌≡◌, refl, false, inl, inr, Bool-cases, some, List, [], ◌∷◌, All, All-combine,
  bit_and, bit_or, ◌==◌, if◌then◌else◌, arith, ap,
}
use miniboot.Common.Bits.{clear_set_two}
use miniboot.Bus.{done, Device, Trace, reply, rd, wr, word, writes, find_write, last_written}
use miniboot.Bus.Poll.{Polled-writes, Settles, poll-Settles}
use miniboot.Clock.{is_starting, enable_clk_mod, enable_domains, enable_mods, enable_basic_clocks}
use miniboot.Clock.Tables.{domains, mods}
use miniboot.Regs.Clocks.{cmdpll_clktimer2clk}

-- The entries of a null-terminated array, in front of the null pointer.
unfoldable pub listed : List ℕ → List ℕ
listed [] = []
listed (r ∷ rs) = if r == 0 then [] else r ∷ listed rs

-- The control register at `m` was last given the mode 2: software wake-up of a domain, explicit
-- enabling of a module.
abbrev pub IsOn : Trace → ℕ → Type 0
IsOn h m = (v : ℕ) × (last_written m h ≡ some v) × (v % 4 ≡ 2)

module _ (h h' : Trace) {a v : ℕ} (wrote : writes h' ≡ wr word a v ∷ writes h) where
  IsOn-write_self : v % 4 ≡ 2 → IsOn h' a
  unfolding last_written
  IsOn-write_self on = (v, ground (arith, ap (find_write a) wrote), on)

  IsOn-write : v % 4 ≡ 2 → (x : ℕ) → IsOn h x → IsOn h' x
  unfolding last_written
  IsOn-write on x (u, e, p) = elim (Bool-cases (a == x)) [
    | inl same ↦ (v, ground (arith, ap (find_write x) wrote), on)
    | inr other ↦ (u, ground (arith, ap (find_write x) wrote), p)
  ]

  IsOn-write_ne : (x : ℕ) → (a == x) ≡ false → IsOn h x → IsOn h' x
  unfolding last_written
  IsOn-write_ne x ne (u, e, p) = (u, ground (arith, ap (find_write x) wrote), p)

-- What a program that switches things on does: it keeps what is on, and adds `m`.
record SwitchesOn (m : ℕ) (h h' : Trace) : Type 0 where
  on : IsOn h' m
  keeps : (x : ℕ) → IsOn h x → IsOn h' x

-- CMDPLL_CLKTIMER2CLK, the one register that `enable_basic_clocks` writes besides.
abbrev timer_clksel : ℕ
timer_clksel = cmdpll_clktimer2clk

abbrev IsOther : ℕ → Type 0
IsOther x = (timer_clksel == x) ≡ false

domains-IsOther : All IsOther (listed domains)
unfolding listed
domains-IsOther = ground arith

mods-IsOther : All IsOther (listed mods)
unfolding listed
mods-IsOther = ground arith

module _ (dev : Device) where
  abbrev new_mode : ℕ → Trace → ℕ
  new_mode a h = bit_or (bit_and (reply dev word a h) 0xffff_fffc) 2 % 2 ^ 32

  abbrev mode_set : ℕ → Trace → Trace
  mode_set a h = wr word a (new_mode a h) ∷ rd word a (reply dev word a h) ∷ h

  new_mode-mod : (a : ℕ) (h : Trace) → new_mode a h % 4 ≡ 2
  new_mode-mod a h = omega (arith, clear_set_two (reply dev word a h) 2 (omega arith) (omega arith))

  -- The module at `m` leaves its transition when it has been told to start.
  abbrev pub Starts : ℕ → ℕ → Type 0
  Starts fuel m = (h : Trace) → IsOn h m → Settles dev m is_starting fuel h

  mode_set-SwitchesOn :
      (a : ℕ) (h h' : Trace) → writes h' ≡ writes (mode_set a h) → SwitchesOn a h h'
  unfolding writes
  mode_set-SwitchesOn a h h' e = record {
    on = IsOn-write_self h h' e (new_mode-mod a h);
    keeps = IsOn-write h h' e (new_mode-mod a h);
  }

  enable_clk_mod-SwitchesOn :
      (fuel m : ℕ)
      → Starts fuel m
      → (h : Trace)
      → (h' : Trace) × (enable_clk_mod dev fuel m 2 h ≡ done tt h') × SwitchesOn m h h'
  unfolding enable_clk_mod writes
  enable_clk_mod-SwitchesOn fuel m starts h =
      let (s, h', e, p) =
        poll-Settles dev m is_starting
          (starts (mode_set m h) ((mode_set-SwitchesOn m h (mode_set m h) refl).on)) in
      (h', rw e, mode_set-SwitchesOn m h h' (Polled-writes dev m is_starting p))

  enable_domains-IsOn :
      (ds : List ℕ) (h : Trace)
      → (h' : Trace) × (enable_domains dev ds h ≡ done tt h')
        × All (IsOn h') (listed ds)
        × ((x : ℕ) → IsOn h x → IsOn h' x)
  unfolding enable_domains listed
  enable_domains-IsOn [] h = (h, refl, tt, λ x p. p)
  enable_domains-IsOn (d ∷ ds) h = elim (Bool-cases (d == 0)) [
    | inl null ↦ rw null (h, refl, tt, λ x p. p)
    | inr some_d ↦
        let (h', e, on, keeps) = enable_domains-IsOn ds (mode_set d h) in
        let first = mode_set-SwitchesOn d h (mode_set d h) refl in
        rw some_d (h', e, (keeps d first.on, on), λ x p. keeps x (first.keeps x p))
  ]

  enable_mods-IsOn :
      (fuel : ℕ) (ms : List ℕ)
      → All (Starts fuel) (listed ms)
      → (h : Trace)
      → (h' : Trace) × (enable_mods dev fuel ms h ≡ done tt h')
        × All (IsOn h') (listed ms)
        × ((x : ℕ) → IsOn h x → IsOn h' x)
  unfolding enable_mods listed
  enable_mods-IsOn fuel [] starts h = (h, refl, tt, λ x p. p)
  enable_mods-IsOn fuel (m ∷ ms) starts h = elim (Bool-cases (m == 0)) [
    | inl null ↦ rw null (h, refl, tt, λ x p. p)
    | inr some_m ↦
        let (start, others) : All (Starts fuel) (m ∷ listed ms) = rw some_m at starts in
        let (h1, e1, first) = enable_clk_mod-SwitchesOn fuel m start h in
        let (h2, e2, on, keeps) = enable_mods-IsOn fuel ms others h1 in
        rw some_m (h2, rw e1 e2, (keeps m first.on, on), λ x p. keeps x (first.keeps x p))
  ]

  -- If each of the 24 modules of the array leaves its transition when told to start,
  -- `enable_basic_clocks` returns, and then each of the seven clock domains and each of the modules
  -- was last given the mode that switches it on: no later write of the function takes that back.
  pub enable_basic_clocks-IsOn :
      (fuel : ℕ)
      → All (Starts fuel) (listed mods)
      → (h : Trace)
      → (h' : Trace) × (enable_basic_clocks dev fuel h ≡ done tt h')
        × All (IsOn h') (listed domains)
        × All (IsOn h') (listed mods)
  unfolding enable_basic_clocks writes listed
  enable_basic_clocks-IsOn fuel starts h =
      let (h1, e1, on_domains, k1) = enable_domains-IsOn domains h in
      let (h2, e2, on_mods, k2) = enable_mods-IsOn fuel mods starts h1 in
      let h3 : Trace = wr word timer_clksel 1 ∷ h2 in
      let keep = λ (x : ℕ) (n : (timer_clksel == x) ≡ false) (p : IsOn h2 x).
        IsOn-write_ne h2 h3 refl x n p in
      (
        h3,
        rw (e1, e2),
        All-combine (listed domains) (λ x n p. keep x n (k2 x p)) domains-IsOther on_domains,
        All-combine (listed mods) keep mods-IsOther on_mods,
      )

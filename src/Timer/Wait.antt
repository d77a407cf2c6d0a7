-- ===== src/Timer/Wait.antt =====
-- src/boot/timer.c: how long `udelay` waits, and that it returns.
use miniboot.Common.{
  ℕ, zero, suc, ◌+◌, ◌-◌, ◌%◌, ◌^◌, ◌<◌, ◌≤◌, ◌≡◌, refl, inl, inr, true, List, [], ◌∷◌, arith,
  Bool-cases,
}
use miniboot.Bus.{done, Device, Trace, reply, rd, word, writes}
use miniboot.Timer.{timer_tcrr, tmo_of, is_positive, passed, delay_loop, udelay}

-- The trace after reading the values `vs` off the counter, the first of them first.
abbrev pub counter_reads : List ℕ → Trace → Trace
counter_reads [] h = h
counter_reads (v ∷ vs) h = counter_reads vs (rd word timer_tcrr v ∷ h)

-- How far a 32-bit counter has come when it has shown `last` and then `vs`, if it went round at
-- most once between two reads.
unfoldable pub elapsed : ℕ → List ℕ → ℕ
elapsed last [] = 0
elapsed last (v ∷ vs) = (v + 2 ^ 32 - last) % 2 ^ 32 + elapsed v vs

-- The two branches of the loop compute one thing, the distance on the circle of 2 ^ 32 ticks.
-- It is what stands between the two readings of a counter that overflowed at most once.
pub passed-mod :
    (last now : ℕ) → last < 2 ^ 32 → now < 2 ^ 32 → passed last now ≡ (now + 2 ^ 32 - last) % 2 ^ 32
unfolding passed
passed-mod last now hl hn = ground arith

-- What a run of the loop has read, and that it has waited long enough.
pub record Waited (tmo last : ℕ) (h h' : Trace) : Type 0 where
  pub values : List ℕ
  pub trace : h' ≡ counter_reads values h
  pub long_enough : is_positive tmo ≡ true → tmo ≤ elapsed last values

module _ (dev : Device) where
  delay_loop-Waited :
      (fuel tmo last : ℕ) {h h' : Trace}
      → tmo < 2 ^ 32
      → last < 2 ^ 32
      → delay_loop dev fuel tmo last h ≡ done tt h'
      → Waited tmo last h h'
  unfolding delay_loop elapsed
  delay_loop-Waited zero tmo last ht hl e = cc
  delay_loop-Waited (suc fuel) tmo last {h} {h'} ht hl e = elim (Bool-cases (is_positive tmo)) [
    | inr stop ↦ record { values = []; trace = ground arith; long_enough = λ p. cc }
    | inl more ↦ read_on more (
        delay_loop-Waited fuel _ (reply dev word timer_tcrr h) (omega arith) (omega arith)
          (rw more at e))
  ]
    where
      read_on :
          is_positive tmo ≡ true
          → Waited
              ((tmo + 2 ^ 32 - passed last (reply dev word timer_tcrr h)) % 2 ^ 32)
              (reply dev word timer_tcrr h)
              (rd word timer_tcrr (reply dev word timer_tcrr h) ∷ h)
              h'
          → Waited tmo last h h'
      read_on more w = record {
        values = reply dev word timer_tcrr h ∷ w.values;
        trace = w.trace;
        long_enough =
            λ p. ground (arith, passed-mod last (reply dev word timer_tcrr h), w.long_enough);
      }

  -- The counter moves between two reads that follow one another, and by less than half its range.
  -- The timer started by `timer_init` runs at 3 MHz, so this asks for a read at least every twelve
  -- minutes.
  abbrev pub Advances : Type 0
  Advances =
      (h : Trace)
      → let v = reply dev word timer_tcrr h in
        let d = (reply dev word timer_tcrr (rd word timer_tcrr v ∷ h) + 2 ^ 32 - v) % 2 ^ 32 in
        (0 < d) × (d < 2 ^ 31)

  delay_loop_returns :
      Advances
      → (fuel tmo : ℕ) (h : Trace) → tmo < 2 ^ 32
      → (is_positive tmo ≡ true → tmo < fuel)
      → 0 < fuel
      → let v = reply dev word timer_tcrr h in
        (h' : Trace) × (delay_loop dev fuel tmo v (rd word timer_tcrr v ∷ h) ≡ done tt h')
  unfolding delay_loop
  delay_loop_returns adv zero tmo h ht enough pos = absurd (omega arith)
  delay_loop_returns adv (suc fuel) tmo h ht enough pos = elim (Bool-cases (is_positive tmo)) [
    | inr stop ↦ (rd word timer_tcrr (reply dev word timer_tcrr h) ∷ h, rw stop)
    | inl more ↦ rw more (
        delay_loop_returns adv fuel _ (rd word timer_tcrr (reply dev word timer_tcrr h) ∷ h)
          (omega arith)
          (ground (
            arith,
            adv h,
            passed-mod (reply dev word timer_tcrr h)
                (reply dev word timer_tcrr (rd word timer_tcrr (reply dev word timer_tcrr h) ∷ h)),
          ))
          (ground arith))
  ]

-- Reading the counter writes nothing.
writes-counter_reads : (vs : List ℕ) (h : Trace) → writes (counter_reads vs h) ≡ writes h
unfolding writes
writes-counter_reads [] h = refl
writes-counter_reads (v ∷ vs) h = writes-counter_reads vs (rd word timer_tcrr v ∷ h)

-- The ticks of the longest delay that `tmo_of` computes.
abbrev pub max_ticks : ℕ
max_ticks = 4294968

-- A delay that returns has read the counter only, and for at least `tmo_of usec` ticks.
pub record Delayed (usec : ℕ) (h h' : Trace) : Type 0 where
  pub first : ℕ
  pub values : List ℕ
  pub trace : h' ≡ counter_reads (first ∷ values) h
  pub long_enough : tmo_of usec ≤ elapsed first values

module _ (dev : Device) (fuel : ℕ) where
  -- Whatever the timer does, a call of `udelay` that returns has only read the counter, and between
  -- its first and its last reading the counter has gone on by at least `usec * 3000 / 1000` ticks
  -- (the product taken modulo 2 ^ 32, as the code takes it).
  pub udelay-Delayed :
      (usec : ℕ) {h h' : Trace} → udelay dev fuel usec h ≡ done tt h' → Delayed usec h h'
  unfolding udelay tmo_of elapsed
  udelay-Delayed usec {h} e = finish (delay_loop-Waited dev fuel _ _ (omega arith) (omega arith) e)
    where
      finish :
          {h' : Trace}
          → Waited
              (tmo_of usec)
              (reply dev word timer_tcrr h)
              (rd word timer_tcrr (reply dev word timer_tcrr h) ∷ h)
              h'
          → Delayed usec h h'
      finish w = record {
        first = reply dev word timer_tcrr h;
        values = w.values;
        trace = w.trace;
        long_enough = ground (arith, w.long_enough);
      }

  -- If the counter advances, `udelay` returns within 4294969 turns of its loop, and what the
  -- program has written is as before the call.
  pub udelay_returns :
      Advances dev
      → max_ticks < fuel
      → (usec : ℕ) (h : Trace)
      → (h' : Trace) × (udelay dev fuel usec h ≡ done tt h') × (writes h' ≡ writes h)
  unfolding udelay tmo_of writes
  udelay_returns adv big usec h = finish (
      delay_loop_returns dev adv fuel (tmo_of usec) h (omega arith) (λ p. omega arith)
        (omega arith))
    where
      finish :
          ((h' : Trace) × (udelay dev fuel usec h ≡ done tt h'))
          → (h' : Trace) × (udelay dev fuel usec h ≡ done tt h') × (writes h' ≡ writes h)
      finish (h', e) = (
        h',
        e,
        let d = udelay-Delayed usec e in rw d.trace (writes-counter_reads (d.first ∷ d.values) h),
      )

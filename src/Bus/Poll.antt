-- ===== src/Bus/Poll.antt =====
-- Busy-wait loops `do { x = readl(a); } while (test x);` on a register, which the drivers of
-- src/boot write in several places, and what is known of them.
use miniboot.Common.{
  ℕ, zero, suc, ◌<◌, ◌≡◌, refl, inl, inr, Bool, true, false, ap, ◌∙◌, All, List, [], ◌∷◌, arith,
  Bool-cases, if◌then◌else◌,
}
use miniboot.Bus.{done, spinning, Device, Trace, Prog, reply, readl, rd, word, writes, ◌>>=◌, pure}

-- The trace `h` with reads of a register behind it, which gave `vs`, the first of them first.
unfoldable pub looked : ℕ → List ℕ → Trace → Trace
looked a [] h = h
looked a (v ∷ vs) h = looked a vs (rd word a v ∷ h)

writes-looked : (a : ℕ) (vs : List ℕ) (h : Trace) → writes (looked a vs h) ≡ writes h
unfolding looked writes
writes-looked a [] h = refl
writes-looked a (v ∷ vs) h = writes-looked a vs (rd word a v ∷ h)

module _ (dev : Device) (a : ℕ) (busy : ℕ → Bool) where
  unfoldable pub poll : ℕ → Prog ℕ
  poll zero = λ h. spinning
  poll (suc fuel) = do v ← readl dev a; if busy v then poll fuel else pure v

  -- The trace after `n` reads of the register, and what the next read gives.
  abbrev pub after_reads : ℕ → Trace → Trace
  after_reads zero h = h
  after_reads (suc n) h = after_reads n (rd word a (reply dev word a h) ∷ h)

  -- The register stops being busy within `fuel` reads from `h` on.
  abbrev pub Settles : ℕ → Trace → Type 0
  Settles fuel h = (n : ℕ) × (n < fuel) × (busy (reply dev word a (after_reads n h)) ≡ false)

  -- What a loop that has ended has done, event by event: it has read the register and nothing else,
  -- busy values first, and the value that it was waiting for at the end.
  pub record Polled (h : Trace) (v : ℕ) (h' : Trace) : Type 0 where
    pub values : List ℕ
    pub waits : All (λ x. busy x ≡ true) values
    pub trace : h' ≡ rd word a v ∷ looked a values h
    pub ready : busy v ≡ false

  pub Polled-writes : {h : Trace} {v : ℕ} {h' : Trace} → Polled h v h' → writes h' ≡ writes h
  unfolding writes
  Polled-writes {h} p = ap writes p.trace ∙ writes-looked a p.values h

  pub poll-Polled : (fuel : ℕ) {v : ℕ} {h h' : Trace} → poll fuel h ≡ done v h' → Polled h v h'
  unfolding poll looked
  poll-Polled zero e = cc
  poll-Polled (suc fuel) {v} {h} {h'} e = elim (Bool-cases (busy (reply dev word a h))) [
    | inr ends ↦ record { values = []; waits = tt; trace = ground arith; ready = ground arith }
    | inl more ↦
        let p = poll-Polled fuel (rw more at e) in
        record {
          values = reply dev word a h ∷ p.values;
          waits = (more, p.waits);
          trace = p.trace;
          ready = p.ready;
        }
  ]

  pub poll_returns :
      (fuel n : ℕ) (h : Trace)
      → n < fuel
      → busy (reply dev word a (after_reads n h)) ≡ false
      → (v : ℕ) × (h' : Trace) × (poll fuel h ≡ done v h')
  unfolding poll
  poll_returns zero n h lt ends = absurd (omega arith)
  poll_returns (suc fuel) zero h lt ends =
      (reply dev word a h, rd word a (reply dev word a h) ∷ h, rw ends)
  poll_returns (suc fuel) (suc n) h lt ends = elim (Bool-cases (busy (reply dev word a h))) [
    | inr now ↦ (reply dev word a h, rd word a (reply dev word a h) ∷ h, rw now)
    | inl more ↦ rw more (poll_returns fuel n _ (omega arith) ends)
  ]

  -- A register that settles ends the loop, with the outcome above.
  pub poll-Settles :
      {fuel : ℕ} {h : Trace}
      → Settles fuel h
      → (v : ℕ) × (h' : Trace) × (poll fuel h ≡ done v h') × Polled h v h'
  poll-Settles {fuel} {h} (n, lt, ends) = finish (poll_returns fuel n h lt ends)
    where
      finish :
          ((v : ℕ) × (h' : Trace) × (poll fuel h ≡ done v h'))
          → (v : ℕ) × (h' : Trace) × (poll fuel h ≡ done v h') × Polled h v h'
      finish (v, h', e) = (v, h', e, poll-Polled fuel e)

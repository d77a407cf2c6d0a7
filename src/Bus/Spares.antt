-- ===== src/Bus/Spares.antt =====
-- Programs that return from every trace without writing to a given address.
use miniboot.Common.{
  ℕ, ◌%◌, ◌^◌, ◌≡◌, ◌≢◌, refl, ◌∙◌, Bool, true, false, ◌==◌, if◌then◌else◌, [], ◌∷◌, arith,
}
use miniboot.Bus.{Trace, rd, wr, pause, Width, half, Device, Prog, done, pure, ◌>>=◌, read, writew}

-- The writes to an address, newest first.
unfoldable pub writes_to : ℕ → Trace → Trace
writes_to a [] = []
writes_to a (rd w b v ∷ h) = writes_to a h
writes_to a (wr w b v ∷ h) = if b == a then wr w b v ∷ writes_to a h else writes_to a h
writes_to a (pause n ∷ h) = writes_to a h

-- `m` returns a value with `P`, and writes nothing to `a`.
pub record Spares (a : ℕ) {A : Type 0} (P : A → Type 0) (m : Prog A) : Type 0 where
  pub runs :
      (h : Trace)
      → (v : A) × (h' : Trace) × (m h ≡ done v h') × P v × (writes_to a h' ≡ writes_to a h)

-- Nothing is asked of a value.
abbrev pub Any : {A : Type 0} → A → Type 0
Any v = Unit {0}

module _ (a : ℕ) where
  pub Spares-pure : {A : Type 0} (P : A → Type 0) (v : A) → P v → Spares a P (pure v)
  Spares-pure P v p = record { runs = λ h. (v, h, refl, p, refl) }

  pub Spares-bind :
      {A B : Type 0} (Q : A → Type 0) (P : B → Type 0) {m : Prog A} {f : A → Prog B}
      → Spares a Q m
      → ((v : A) → Q v → Spares a P (f v))
      → Spares a P (m >>= f)
  Spares-bind Q P first rest = record {
    runs = λ h.
        let (v, h1, e1, q, s1) = first.runs h in
        let (w, h2, e2, p, s2) = (rest v q).runs h1 in (w, h2, rw e1 e2, p, s2 ∙ s1);
  }

  pub Spares-if :
      {A : Type 0} (P : A → Type 0) (b : Bool) {m n : Prog A}
      → (b ≡ true → Spares a P m)
      → (b ≡ false → Spares a P n)
      → Spares a P (if b then m else n)
  Spares-if P true p q = p refl
  Spares-if P false p q = q refl

  pub Spares-read : (dev : Device) (w : Width) (b : ℕ) → Spares a Any (read dev w b)
  unfolding writes_to
  Spares-read dev w b = record { runs = λ h. (_, _, refl, tt, refl) }

  pub Spares-writew : (v b : ℕ) → b ≢ a → Spares a Any (writew v b)
  unfolding writes_to
  Spares-writew v b ne = record {
    runs = λ h. (tt, wr half b (v % 2 ^ 16) ∷ h, refl, tt, ground (arith, ne));
  }

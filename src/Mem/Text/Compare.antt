-- ===== src/Mem/Text/Compare.antt =====
-- src/lib/string.c: `strcmp` finds out whether two strings are the same.
use miniboot.Common.{
  ◌↔◌, true, ℕ, zero, suc, ◌+◌, ◌^◌, ◌<◌, ◌≡◌, refl, sym, ap, ◌∙◌, inl, inr, false, Bool-cases,
  some, ◌==◌, min, arith,
}
use miniboot.Mem.{Memory}
use miniboot.Mem.Text.{char_difference, strcmp}
use miniboot.Mem.Text.Copy.{IsString, IsString-tail, first_set, empty_test, empty_zero}

-- Two strings of `n` and of `k` bytes with the same bytes.
pub record IsSame (m : Memory) (p n q k : ℕ) : Type 0 where
  pub lengths : n ≡ k
  pub body : (i : ℕ) → i < n → m (p + i) ≡ m (q + i)

module _ (m : Memory) (byte : (a : ℕ) → m a < 2 ^ 8) where
  difference_zero : (p q : ℕ) → (char_difference (m p) (m q) == 0) ≡ (m p == m q)
  difference_zero p q = ground (arith, byte p, byte q)

  -- What is claimed of a comparison.
  abbrev Compared : ℕ → ℕ → ℕ → ℕ → ℕ → Type 0
  Compared fuel p n q k = (r : ℕ) × (strcmp fuel m p q ≡ some r) × ((r ≡ 0) ↔ IsSame m p n q k)

  first_same : (n k p q : ℕ) → IsString m p n → IsString m q k → IsSame m p n q k → m p ≡ m q
  first_same zero zero p q tp tq s = empty_zero m p tp ∙ sym (empty_zero m q tq)
  first_same zero (suc k) p q tp tq s = absurd (omega (arith, s.lengths))
  first_same (suc n) k p q tp tq s =
      ap m (omega arith) ∙ s.body 0 (omega arith) ∙ ap m (omega arith)

  differs :
      (n k fuel p q : ℕ)
      → IsString m p n
      → IsString m q k
      → (m p == m q) ≡ false
      → Compared (suc fuel) p n q k
  unfolding strcmp
  differs n k fuel p q tp tq other =
      let test : (char_difference (m p) (m q) == 0) ≡ false = difference_zero p q ∙ other in
      (
        char_difference (m p) (m q),
        rw test refl,
        (
          λ z. absurd (ground (arith, test, z)),
          λ s. absurd (ground (arith, first_same n k p q tp tq s, other)),
        ),
      )

  cons-IsSame :
      (n k p q : ℕ) → m p ≡ m q → IsSame m (p + 1) n (q + 1) k → IsSame m p (suc n) q (suc k)
  cons-IsSame n k p q e s = record { lengths = omega (arith, s.lengths); body = body_at }
    where
      body_at : (i : ℕ) → i < suc n → m (p + i) ≡ m (q + i)
      body_at zero lt = ap m (omega arith) ∙ e ∙ ap m (omega arith)
      body_at (suc i) lt = ap m (omega arith) ∙ s.body i (omega arith) ∙ ap m (omega arith)

  IsSame-tail : (n k p q : ℕ) → IsSame m p (suc n) q (suc k) → IsSame m (p + 1) n (q + 1) k
  IsSame-tail n k p q s = record {
    lengths = omega (arith, s.lengths);
    body = λ i lt. ap m (omega arith) ∙ s.body (suc i) (omega arith) ∙ ap m (omega arith);
  }

  -- If every byte fits a byte, `strcmp` of two strings returns within one turn more than the shorter
  -- one has bytes in front of its zero, and the result is 0 exactly when the strings have the same
  -- length and the same bytes.
  pub strcmp-IsSame :
      (n k fuel p q : ℕ) → IsString m p n → IsString m q k → min n k < fuel → Compared fuel p n q k
  unfolding strcmp
  strcmp-IsSame n k zero p q tp tq lt = absurd (omega arith)
  strcmp-IsSame zero zero (suc fuel) p q tp tq lt =
      let e : m p ≡ m q = empty_zero m p tp ∙ sym (empty_zero m q tq) in
      let test : (char_difference (m p) (m q) == 0) ≡ true =
        difference_zero p q ∙ ground (arith, e) in
      (
        char_difference (m p) (m q),
        rw (test, empty_test m p tp) refl,
        (
          λ z. record { lengths = refl; body = λ i below. absurd (omega arith) },
          λ s. ground (arith, test),
        ),
      )
  strcmp-IsSame zero (suc k) (suc fuel) p q tp tq lt =
      differs zero (suc k) fuel p q tp tq (ground (arith, empty_zero m p tp, first_set m q k tq))
  strcmp-IsSame (suc n) zero (suc fuel) p q tp tq lt =
      differs (suc n) zero fuel p q tp tq (ground (arith, empty_zero m q tq, first_set m p n tp))
  strcmp-IsSame (suc n) (suc k) (suc fuel) p q tp tq lt = elim (Bool-cases (m p == m q)) [
    | inr other ↦ differs (suc n) (suc k) fuel p q tp tq other
    | inl equal ↦
        let test : (char_difference (m p) (m q) == 0) ≡ true = difference_zero p q ∙ equal in
        let e : m p ≡ m q = ground (arith, equal) in
        let (r, c, (forth, back)) =
          strcmp-IsSame n k fuel (p + 1) (q + 1) (IsString-tail m p n tp) (IsString-tail m q k tq)
            (omega arith) in
        (
          r,
          rw (test, first_set m p n tp) c,
          (λ z. cons-IsSame n k p q e (forth z), λ s. back (IsSame-tail n k p q s)),
        )
  ]

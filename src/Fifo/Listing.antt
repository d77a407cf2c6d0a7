-- ===== src/Fifo/Listing.antt =====
-- Stretches of a memory as lists of bytes, and positions on a circle measured in elements.
use miniboot.Common.{
  ℕ, zero, suc, ◌+◌, ◌-◌, ◌*◌, ◌%◌, ◌<◌, ◌≤◌, ◌≡◌, refl, ap, ap₂, ◌∙◌, inl, inr, Bool-cases, List,
  [], ◌∷◌, ◌++◌, ltb, arith,
}
use native.Mathlib.Nat.{mod-eq_of_lt, mod-eq-sub-mod, mul-lt-mul_of_pos_right}
use miniboot.Fifo.Bytes.{around}

-- The first `n` values of `f`.
abbrev pub listing : (ℕ → ℕ) → ℕ → List ℕ
listing f zero = []
listing f (suc n) = f 0 ∷ listing (λ i. f (suc i)) n

pub listing_cong : (n : ℕ) (f g : ℕ → ℕ) → ((k : ℕ) → k < n → f k ≡ g k) → listing f n ≡ listing g n
listing_cong zero f g same = refl
listing_cong (suc n) f g same =
    ap₂ ◌∷◌ (same 0 (omega arith))
      (listing_cong n (λ i. f (suc i)) (λ i. g (suc i)) (λ k lt. same (suc k) (omega arith)))

pub listing-append :
    (a b : ℕ) (f : ℕ → ℕ) → listing f (a + b) ≡ listing f a ++ listing (λ k. f (a + k)) b
listing-append zero b f =
    let same : 0 + b ≡ b = omega arith in
    ap (listing f) same ∙ listing_cong b f (λ k. f (0 + k)) (λ k lt. ap f (omega arith))
listing-append (suc a) b f =
    let step : suc a + b ≡ suc (a + b) = omega arith in
    let g = λ (i : ℕ). f (suc i) in
    let shifted : listing (λ k. g (a + k)) b ≡ listing (λ k. f (suc a + k)) b =
      listing_cong b (λ k. g (a + k)) (λ k. f (suc a + k)) (λ k lt. ap f (omega arith)) in
    ap (listing f) step
    ∙ ap (λ t. f 0 ∷ t) (listing-append a b g ∙ ap (λ t. listing g a ++ t) shifted)

-- `n` elements further on a circle of `c` elements of `e` bytes.
pub around_elements :
    (a n c e : ℕ) → a < c → n ≤ c → 0 < e → (a + n) % c * e ≡ around (a * e) (n * e) (c * e)
around_elements a n c e la ln pos = elim (Bool-cases (ltb (a + n) c)) [
  | inl before ↦
      let lt : a + n < c = ground arith in
      ap (λ t. t * e) (mod-eq_of_lt lt) ∙ ground (arith, mul-lt-mul_of_pos_right lt pos)
  | inr behind ↦
      let ge : c ≤ a + n = ground arith in
      let less : (a + n) % c ≡ a + n - c =
        mod-eq-sub-mod {n = a + n} {m = c} ge
        ∙ mod-eq_of_lt {n = a + n - c} {m = c} (omega arith) in
      let back : (a + n - c + c) * e ≡ (a + n) * e = ap (λ t. t * e) (omega arith) in
      ap (λ t. t * e) less ∙ ground (arith, back)
]

-- Going round twice is going round once by the sum, as long as the sum is not more than a round.
pub around_twice :
    (o j k s : ℕ) → o < s → j + k < s → around (around o j s) k s ≡ around o (j + k) s
around_twice o j k s lt sum = ground arith

-- A place in front of `u` is reached from `u` by going on nearly a whole round.
pub around_back :
    (o u k s : ℕ) → o < s → k < u → u ≤ s → around (around o u s) (s - u + k) s ≡ around o k s
around_back o u k s lt less le = ground arith

pub around-lt : (o k s : ℕ) → o < s → k ≤ s → around o k s < s
around-lt o k s lt le = ground arith

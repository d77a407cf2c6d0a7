-- ===== src/Mem/Order.antt =====
-- src/lib/string.c: the order in which `memcmp` puts two areas.
use miniboot.Common.{
  ℕ, zero, suc, ◌+◌, ◌-◌, ◌%◌, ◌^◌, ◌<◌, ◌≤◌, ◌≡◌, ◌≢◌, ◌↔◌, ◌⊎◌, refl, ap, ◌∙◌, inl, inr,
  Bool-cases, ◌==◌, arith,
}
use miniboot.Mem.{Memory, memcmp}

-- The first place where the areas differ decides. As an `int`, the result `r` is below 0 from
-- 2 ^ 31 on.
pub record FirstDifference (m : Memory) (cs ct n r : ℕ) : Type 0 where
  pub place : ℕ
  pub within : place < n
  pub before : (j : ℕ) → j < place → m (cs + j) ≡ m (ct + j)
  pub differs : m (cs + place) ≢ m (ct + place)
  pub nonzero : r ≢ 0
  pub negative : (2 ^ 31 ≤ r) ↔ (m (cs + place) < m (ct + place))

-- What is known of a result.
abbrev pub Outcome : Memory → ℕ → ℕ → ℕ → ℕ → Type 0
Outcome m cs ct n r =
    ((r ≡ 0) × ((j : ℕ) → j < n → m (cs + j) ≡ m (ct + j))) ⊎ FirstDifference m cs ct n r

-- The difference that `memcmp` takes at one place.
abbrev difference : Memory → ℕ → ℕ → ℕ
difference m cs ct = (m cs + 2 ^ 32 - m ct) % 2 ^ 32

module _ (m : Memory) (bytes : (a : ℕ) → m a < 256) where
  -- The areas agree at their first place, and from there on.
  extend :
      (cs ct n : ℕ)
      → m cs ≡ m ct
      → ((j : ℕ) → j < n → m (cs + 1 + j) ≡ m (ct + 1 + j))
      → (j : ℕ) → j < suc n
      → m (cs + j) ≡ m (ct + j)
  extend cs ct n e f zero lt = ap m (omega arith) ∙ e ∙ ap m (omega arith)
  extend cs ct n e f (suc j) lt = ap m (omega arith) ∙ f j (omega arith) ∙ ap m (omega arith)

  Outcome-suc :
      (cs ct n r : ℕ) → m cs ≡ m ct → Outcome m (cs + 1) (ct + 1) n r → Outcome m cs ct (suc n) r
  Outcome-suc cs ct n r e (inl (z, same)) = inl (z, extend cs ct n e same)
  Outcome-suc cs ct n r e (inr d) =
      let left : cs + suc d.place ≡ cs + 1 + d.place = omega arith in
      let right : ct + suc d.place ≡ ct + 1 + d.place = omega arith in
      inr (record {
        place = suc d.place;
        within = omega (arith, d.within);
        before = extend cs ct d.place e d.before;
        differs = rw (left, right) d.differs;
        nonzero = d.nonzero;
        negative = rw (left, right) d.negative;
      })

  -- If every byte fits a byte, `memcmp` of two areas of `n` bytes gives 0 if they hold the same bytes.
  -- Otherwise the first place where they differ decides: the result is not 0, and as an `int` it is
  -- negative exactly when the byte of the first area is the smaller one there.
  pub memcmp-Outcome : (n cs ct : ℕ) → Outcome m cs ct n (memcmp m cs ct n)
  unfolding memcmp
  memcmp-Outcome zero cs ct = inl (refl, λ j lt. absurd (omega arith))
  memcmp-Outcome (suc n) cs ct = elim (Bool-cases (difference m cs ct == 0)) [
    | inl same ↦
        let e : m cs ≡ m ct = ground (arith, same, bytes cs, bytes ct) in
        rw same (Outcome-suc cs ct n _ e (memcmp-Outcome n (cs + 1) (ct + 1)))
    | inr other ↦
        let left : cs + 0 ≡ cs = omega arith in
        let right : ct + 0 ≡ ct = omega arith in
        rw other (
          inr (record {
            place = 0;
            within = omega arith;
            before = λ j lt. absurd (omega arith);
            differs = rw (left, right) (λ e. ground (arith, e, other, bytes cs, bytes ct));
            nonzero = λ z. ground (arith, z, other);
            negative =
                rw (left, right)
                  (
                    λ big. ground (arith, big, bytes cs, bytes ct),
                    λ lt. ground (arith, lt, bytes cs, bytes ct),
                  );
          }))
  ]

  -- On memory that holds bytes, `memcmp` returns 0 exactly if the two areas hold the same bytes.
  memcmp_zero : (n cs ct : ℕ) → (memcmp m cs ct n ≡ 0) ↔ ((i : ℕ) → i < n → m (cs + i) ≡ m (ct + i))
  memcmp_zero n cs ct = elim (memcmp-Outcome n cs ct) [
    | inl (z, same) ↦ (λ e. same, λ f. z)
    | inr d ↦ (λ e. absurd (d.nonzero e), λ f. absurd (d.differs (f d.place d.within)))
  ]

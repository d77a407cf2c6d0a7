-- ===== src/Cache/Lines.antt =====
-- Arithmetic of the lines of a range: the ends of a range, and the loops over its lines.
use miniboot.Common.{
  inside, ℕ, zero, suc, ◌+◌, ◌-◌, ◌*◌, ◌/◌, ◌%◌, ◌<◌, ◌≤◌, ◌≡◌, ap, ◌∙◌, inl, inr, Bool, true, not,
  Bool-cases, ◌==◌, ltb, leb, ◌&&◌, ◌||◌, if◌then◌else◌, arith,
}

-- The lines that `__v7_inv_range` writes back first are the ones at an end, and the lines that it
-- then throws away start with the one of `start`: `q` and `e` are the numbers of the lines at the
-- ends, `rs` and `re` the places of the ends in them, and `i` is the number of a line.
module _ (q e i rs re : ℕ) (order : q ≤ e) (same : q ≡ e → rs < re) where
  abbrev pub at_start : Bool
  at_start = not (rs == 0) && (i == q)

  abbrev pub at_end : Bool
  at_end = not (re == 0) && (i == e)

  abbrev pub between : Bool
  between = inside q (suc (e - 1 - q)) i

  abbrev pub from_to : Bool
  from_to = leb q i && leb i (if re == 0 then e - 1 else e)

  abbrev pub is_whole : Bool
  is_whole = (if rs == 0 then leb q i else ltb q i) && leb (i + 1) e

  pub from_to_lem : from_to ≡ at_start || at_end || between
  from_to_lem = ground (arith, same)

  pub is_whole_lem : from_to ≡ true → is_whole ≡ not (at_start || at_end)
  is_whole_lem t = ground (arith, same, t)

module _ (line : ℕ) (pos : 0 < line) where
  pub below_end : (end i : ℕ) → 0 < end → ltb ((i + 1) * line) end ≡ leb (i + 1) ((end - 1) / line)
  below_end end i some_bytes = grind arith

  pub below_line : (n i : ℕ) → ltb ((i + 1) * line) (n * line) ≡ leb (i + 1) (n - 1)
  below_line n i = elim (Bool-cases (ltb (i + 1) n)) [
    | inl less ↦
        let d = n - (i + 2) in
        let e : n ≡ i + 2 + d = ground (arith, less) in
        let lt : (i + 1) * line < n * line = rw e (omega arith) in ground (arith, lt, less)
    | inr more ↦
        let d = i + 1 - n in
        let e : i + 1 ≡ n + d = ground (arith, more) in
        let le : n * line ≤ (i + 1) * line = rw e (omega arith) in ground (arith, le, more)
  ]

  quotient : (q r : ℕ) → r < line → (q * line + r) / line ≡ q
  quotient q r lt = grind arith

  last_exact : (end m : ℕ) → 0 < end → end ≡ m * line → (end - 1) / line ≡ m - 1
  last_exact end zero some_bytes e = absurd (omega (arith, some_bytes, e))
  last_exact end (suc m) some_bytes e =
      let z : end - 1 ≡ m * line + (line - 1) = omega (arith, e, pos) in
      let same : (end - 1) / line ≡ m =
        ap (λ x. x / line) z ∙ quotient m (line - 1) (omega arith) in
      omega (arith, same)

  pub last_line :
      (end : ℕ)
      → 0 < end
      → (end - 1) / line ≡ (if end % line == 0 then end / line - 1 else end / line)
  last_line end some_bytes =
      let parts : end ≡ end / line * line + end % line = grind arith in
      let small : end % line < line = grind arith in
      elim (Bool-cases (end % line == 0)) [
        | inl none_left ↦
            let exact : end ≡ end / line * line = ground (arith, none_left, parts) in
            rw none_left (last_exact end (end / line) some_bytes exact)
        | inr left ↦
            let e : end - 1 ≡ end / line * line + (end % line - 1) = ground (arith, left, parts) in
            rw left (ap (λ x. x / line) e ∙ quotient (end / line) (end % line - 1) (omega arith))
      ]

  pub from_start :
      (start i : ℕ)
      → leb start (i * line)
        ≡ (if start % line == 0 then leb (start / line) i else ltb (start / line) i)
  from_start start i = grind arith

  pub to_end : (end i : ℕ) → leb ((i + 1) * line) end ≡ leb (i + 1) (end / line)
  to_end end i = grind arith

  module _ (start end : ℕ) (some_bytes : start < end) where
    pub in_order : start / line ≤ end / line
    in_order = grind arith

    pub same_line : start / line ≡ end / line → start % line < end % line
    same_line e =
        let p : start ≡ start / line * line + start % line = grind arith in
        let p' : end ≡ end / line * line + end % line = grind arith in
        let z : start / line * line ≡ end / line * line = ap (λ x. x * line) e in
        omega (arith, p, p', z, some_bytes)

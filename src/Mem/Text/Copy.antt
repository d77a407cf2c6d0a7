-- ===== src/Mem/Text/Copy.antt =====
-- src/lib/string.c: what `strcpy` and `strcat` leave, as `strlen` and `strcmp` see it.
use miniboot.Common.{
  true, ◌⊎◌, ℕ, zero, suc, ◌+◌, ◌-◌, ◌<◌, ◌≡◌, ◌≢◌, refl, sym, ap, ◌∙◌, false, some, ◌==◌, arith,
}
use miniboot.Mem.{Memory, put, copy_up}
use miniboot.Mem.Move.{moved}
use miniboot.Mem.Copy.{Apart, copy_up-Apart}
use miniboot.Mem.Text.{strlen_loop, strcpy, find_end}

-- The string at `s` has `n` bytes in front of its zero.
pub record IsString (m : Memory) (s n : ℕ) : Type 0 where
  pub body : (i : ℕ) → i < n → m (s + i) ≢ 0
  pub end : m (s + n) ≡ 0

pub IsString-tail : (m : Memory) (s n : ℕ) → IsString m s (suc n) → IsString m (s + 1) n
IsString-tail m s n t = record {
  body = λ i lt e. t.body (suc i) (omega arith) (ap m (omega arith) ∙ e);
  end = ap m (omega arith) ∙ t.end;
}

-- The first byte of a string that is not empty, and of an empty one.
pub first_set : (m : Memory) (s n : ℕ) → IsString m s (suc n) → (m s == 0) ≡ false
first_set m s n t =
    let ne : m s ≢ 0 = λ e. t.body 0 (omega arith) (ap m (omega arith) ∙ e) in ground (arith, ne)

pub empty_zero : (m : Memory) (s : ℕ) → IsString m s 0 → m s ≡ 0
empty_zero m s t = ap m (omega arith) ∙ t.end

pub empty_test : (m : Memory) (s : ℕ) → IsString m s 0 → (m s == 0) ≡ true
empty_test m s t = ground (arith, empty_zero m s t)

pub strlen_loop-IsString :
    (n fuel : ℕ) (m : Memory) (s sc : ℕ)
    → IsString m sc n
    → n < fuel
    → strlen_loop fuel m s sc ≡ some (sc + n - s)
unfolding strlen_loop
strlen_loop-IsString n zero m s sc t lt = absurd (omega arith)
strlen_loop-IsString zero (suc fuel) m s sc t lt =
    rw (empty_zero m sc t) (ap (λ k. some (k - s)) (omega arith))
strlen_loop-IsString (suc n) (suc fuel) m s sc t lt = rw (first_set m sc n t) (
    strlen_loop-IsString n fuel m s (sc + 1) (IsString-tail m sc n t) (omega arith)
    ∙ ap (λ k. some (k - s)) (omega arith))

pub find_end-IsString :
    (n fuel : ℕ) (m : Memory) (s : ℕ) → IsString m s n → n < fuel → find_end fuel m s ≡ some (s + n)
unfolding find_end
find_end-IsString n zero m s t lt = absurd (omega arith)
find_end-IsString zero (suc fuel) m s t lt = rw (empty_zero m s t) (ap some (omega arith))
find_end-IsString (suc n) (suc fuel) m s t lt = rw (first_set m s n t) (
    find_end-IsString n fuel m (s + 1) (IsString-tail m s n t) (omega arith)
    ∙ ap some (omega arith))

-- A write outside a string leaves the string.
IsString-put :
    (m : Memory) (s n d v : ℕ) → IsString m s n → (d < s) ⊎ (s + n < d) → IsString (put m d v) s n
IsString-put m s n d v t out = record {
  body = λ i lt e. t.body i lt (ground (arith, out, e));
  end = ground (arith, out, t.end);
}

pub strcpy-copy_up :
    (n fuel : ℕ) (m : Memory) (d s : ℕ)
    → IsString m s n
    → Apart d s (n + 1)
    → n < fuel
    → strcpy fuel m d s ≡ some (copy_up m d s (n + 1))
unfolding strcpy copy_up
strcpy-copy_up n zero m d s t apart lt = absurd (omega arith)
strcpy-copy_up zero (suc fuel) m d s t apart lt = rw (empty_test m s t) refl
strcpy-copy_up (suc n) (suc fuel) m d s t apart lt =
    let one_more : suc n + 1 ≡ suc (n + 1) = omega arith in
    let rest : IsString (put m d (m s)) (s + 1) n =
      IsString-put m (s + 1) n d (m s) (IsString-tail m s n t) (ground (arith, apart)) in
    rw (first_set m s n t, one_more)
      (strcpy-copy_up n fuel (put m d (m s)) (d + 1) (s + 1) rest (ground (arith, apart))
        (omega arith))

-- A string at `d` that is a copy of the one at `s`.
module _ (m : Memory) (d s n : ℕ) (t : IsString m s n) (apart : Apart d s (n + 1)) where
  abbrev copied : Memory
  copied = copy_up m d s (n + 1)

  pub copied-moved : (x : ℕ) → copied x ≡ moved m d s (n + 1) x
  copied-moved x = copy_up-Apart (n + 1) m d s x apart

  pub copy_byte : (i : ℕ) → i < n + 1 → copied (d + i) ≡ m (s + i)
  copy_byte i lt =
      let here : m (s + (d + i - d)) ≡ m (s + i) = ap m (omega arith) in
      copied-moved (d + i) ∙ ground (arith, here)

  pub source_byte : (i : ℕ) → i < n + 1 → copied (s + i) ≡ m (s + i)
  source_byte i lt = copied-moved (s + i) ∙ ground (arith, apart)

  pub copy-IsString : IsString copied d n
  copy-IsString = record {
    body = λ i lt e. t.body i lt (sym (copy_byte i (omega arith)) ∙ e);
    end = copy_byte n (omega arith) ∙ t.end;
  }

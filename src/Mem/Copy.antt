-- ===== src/Mem/Copy.antt =====
-- src/lib/string.c: `memcpy` between areas that do not overlap, and `memset`, with their word loops.
use miniboot.Common.{
  inside, ℕ, zero, suc, ◌+◌, ◌-◌, ◌*◌, ◌/◌, ◌%◌, ◌≤◌, ◌≡◌, ◌⊎◌, ap, ◌∙◌, inl, inr, Bool-cases, ◌==◌,
  bit_and, bit_or, if◌then◌else◌, arith,
}
use miniboot.Mem.{Memory, put, put_word, copy_up, copy_words, memcpy, fill_up, fill_words, memset}
use miniboot.Mem.Move.{moved}

-- The `n` bytes from `a` on, all `v`.
abbrev pub filled : Memory → ℕ → ℕ → ℕ → Memory
filled m a v n x = if inside a n x then v else m x

fill_up-filled : (n : ℕ) (m : Memory) (s c x : ℕ) → fill_up m s c n x ≡ filled m s (c % 256) n x
unfolding fill_up
fill_up-filled zero m s c x = ground arith
fill_up-filled (suc n) m s c x = fill_up-filled n (put m s (c % 256)) (s + 1) c x ∙ ground arith

fill_words-filled :
    (k : ℕ) (m : Memory) (s c x : ℕ) → fill_words m s c k x ≡ filled m s (c % 256) (k * 4) x
unfolding fill_words
fill_words-filled zero m s c x = ground arith
fill_words-filled (suc k) m s c x =
    fill_words-filled k (put_word m s (c % 256) (c % 256) (c % 256) (c % 256)) (s + 4) c x
    ∙ ground arith

-- Wherever the area lies, `memset` makes each of its `n` bytes the low byte of `c`, and leaves every
-- other byte as it was.
pub memset-filled : (m : Memory) (s c n x : ℕ) → memset m s c n x ≡ filled m s (c % 256) n x
unfolding memset
memset-filled m s c n x = elim (Bool-cases (bit_and s 3 == 0)) [
  | inl aligned ↦ rw aligned (
      fill_up-filled (n % 4) (fill_words m s c (n / 4)) (s + n / 4 * 4) c x
      ∙ ground (arith, fill_words-filled (n / 4) m s c x))
  | inr bytewise ↦ rw bytewise (fill_up-filled n m s c x)
]

-- Two areas of `n` bytes that have no byte in common.
abbrev pub Apart : ℕ → ℕ → ℕ → Type 0
Apart d s n = (d + n ≤ s) ⊎ (s + n ≤ d)

pub copy_up-Apart :
    (n : ℕ) (m : Memory) (d s x : ℕ) → Apart d s n → copy_up m d s n x ≡ moved m d s n x
unfolding copy_up
copy_up-Apart zero m d s x ap' = ground arith
copy_up-Apart (suc n) m d s x apart =
    let far : d + 1 ≤ x → m (s + 1 + (x - (d + 1))) ≡ m (s + (x - d)) = λ h. ap m (omega arith) in
    let near : x ≡ d → m s ≡ m (s + (x - d)) = λ h. ap m (omega arith) in
    let rest : Apart (d + 1) (s + 1) n = ground (arith, apart) in
    copy_up-Apart n (put m d (m s)) (d + 1) (s + 1) x rest ∙ ground (arith, far, near, apart)

copy_words-Apart :
    (k : ℕ) (m : Memory) (d s x : ℕ)
    → Apart d s (k * 4)
    → copy_words m d s k x ≡ moved m d s (k * 4) x
unfolding copy_words
copy_words-Apart zero m d s x apart = ground arith
copy_words-Apart (suc k) m d s x apart =
    let far : d + 4 ≤ x → m (s + 4 + (x - (d + 4))) ≡ m (s + (x - d)) = λ h. ap m (omega arith) in
    let byte0 : x ≡ d → m s ≡ m (s + (x - d)) = λ h. ap m (omega arith) in
    let byte1 : x ≡ d + 1 → m (s + 1) ≡ m (s + (x - d)) = λ h. ap m (omega arith) in
    let byte2 : x ≡ d + 2 → m (s + 2) ≡ m (s + (x - d)) = λ h. ap m (omega arith) in
    let byte3 : x ≡ d + 3 → m (s + 3) ≡ m (s + (x - d)) = λ h. ap m (omega arith) in
    let rest : Apart (d + 4) (s + 4) (k * 4) = ground (arith, apart) in
    copy_words-Apart k (put_word m d (m s) (m (s + 1)) (m (s + 2)) (m (s + 3))) (d + 4) (s + 4) x
      rest
    ∙ ground (arith, far, byte0, byte1, byte2, byte3, apart)

-- If the two areas have no byte in common, `memcpy` leaves the `n` bytes of the source at the
-- destination, and every other byte as it was, whether it copies words or bytes.
pub memcpy-moved :
    (m : Memory) (dest src n x : ℕ)
    → Apart dest src n
    → memcpy m dest src n x ≡ moved m dest src n x
unfolding memcpy
memcpy-moved m dest src n x apart = elim (Bool-cases (src == dest)) [
  | inl same ↦ ground (arith, apart, same)
  | inr other ↦ elim (Bool-cases (bit_and (bit_or dest src) 3 == 0)) [
    | inr bytewise ↦ rw (other, bytewise) (copy_up-Apart n m dest src x apart)
    | inl aligned ↦
        let w = n / 4 * 4 in
        let y = src + w + (x - (dest + w)) in
        let words = copy_words-Apart (n / 4) m dest src in
        let fits : Apart dest src w = ground (arith, apart) in
        let rest : Apart (dest + w) (src + w) (n % 4) = ground (arith, apart) in
        let far : dest + w ≤ x → m y ≡ m (src + (x - dest)) = λ h. ap m (omega arith) in
        rw (other, aligned)
          (copy_up-Apart (n % 4) (copy_words m dest src (n / 4)) (dest + w) (src + w) x rest
            ∙ ground (arith, words x fits, words y fits, far, apart))
  ]
]

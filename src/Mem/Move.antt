-- ===== src/Mem/Move.antt =====
-- src/lib/string.c: `memmove` between areas that may overlap.
use miniboot.Common.{
  inside, ℕ, zero, suc, ◌+◌, ◌-◌, ◌<◌, ◌≤◌, ◌≡◌, ap, ◌∙◌, inl, inr, Bool-cases, ◌==◌, leb,
  if◌then◌else◌, arith,
}
use miniboot.Mem.{Memory, put, copy_up, copy_down, memmove}

-- The memory `m` with the `n` bytes from `s` on at `d`.
abbrev pub moved : Memory → ℕ → ℕ → ℕ → Memory
moved m d s n x = if inside d n x then m (s + (x - d)) else m x

copy_up-moved : (n : ℕ) (m : Memory) (d s x : ℕ) → d < s → copy_up m d s n x ≡ moved m d s n x
unfolding copy_up
copy_up-moved zero m d s x lt = ground arith
copy_up-moved (suc n) m d s x lt =
    let far : d + 1 ≤ x → m (s + 1 + (x - (d + 1))) ≡ m (s + (x - d)) = λ h. ap m (omega arith) in
    let near : x ≡ d → m s ≡ m (s + (x - d)) = λ h. ap m (omega arith) in
    copy_up-moved n (put m d (m s)) (d + 1) (s + 1) x (omega arith) ∙ ground (arith, far, near)

copy_down-moved : (n : ℕ) (m : Memory) (d s x : ℕ) → s < d → copy_down m d s n x ≡ moved m d s n x
unfolding copy_down
copy_down-moved zero m d s x lt = ground arith
copy_down-moved (suc n) m d s x lt =
    let last : x ≡ d + n → m (s + n) ≡ m (s + (x - d)) = λ h. ap m (omega arith) in
    copy_down-moved n (put m (d + n) (m (s + n))) d s x lt ∙ ground (arith, last)

-- However the two areas overlap, `memmove` leaves the `n` bytes that were at `src` at `dest`, and
-- every byte outside the destination as it was.
pub memmove-moved : (m : Memory) (dest src n x : ℕ) → memmove m dest src n x ≡ moved m dest src n x
unfolding memmove
memmove-moved m dest src n x = elim (Bool-cases (src == dest)) [
  | inl same ↦
      let here : dest ≤ x → m x ≡ m (src + (x - dest)) = λ h. ap m (ground (arith, same)) in
      ground (arith, same, here)
  | inr apart ↦ elim (Bool-cases (leb dest src)) [
    | inl below ↦ rw (apart, below) (copy_up-moved n m dest src x (ground (arith, apart, below)))
    | inr above ↦ rw (apart, above) (copy_down-moved n m dest src x (ground (arith, above)))
  ]
]

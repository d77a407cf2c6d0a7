-- ===== src/Fifo/Bytes.antt =====
-- src/lib/fifo.c: the two copies of `__fifo_in` and of `__fifo_out`, byte by byte.
use miniboot.Common.{
  ℕ, ◌+◌, ◌-◌, ◌<◌, ◌≤◌, ◌≡◌, ◌⊎◌, ap, ◌∙◌, inl, inr, Bool-cases, ltb, if◌then◌else◌, min, arith,
}
use miniboot.Mem.{Memory, memcpy}
use miniboot.Mem.Move.{moved}
use miniboot.Mem.Copy.{memcpy-moved}

-- The byte `k` places behind `o`, in a buffer of `s` bytes that is gone round at most once.
abbrev pub around : ℕ → ℕ → ℕ → ℕ
around o k s = if ltb (o + k) s then o + k else o + k - s

-- `len` bytes from `src` on go behind the offset `o` of the buffer, and on at its start.
abbrev pub stored : Memory → ℕ → ℕ → ℕ → ℕ → ℕ → Memory
stored m start s o src len =
    let l = min len (s - o) in memcpy (memcpy m (start + o) src l) start (src + l) (len - l)

abbrev pub fetched : Memory → ℕ → ℕ → ℕ → ℕ → ℕ → Memory
fetched m start s o des len =
    let l = min len (s - o) in memcpy (memcpy m des (start + o) l) (des + l) start (len - l)

-- An area of `len` bytes that has no byte of the buffer.
abbrev pub Outside : ℕ → ℕ → ℕ → ℕ → Type 0
Outside start s p len = (p + len ≤ start) ⊎ (start + s ≤ p)

module _ (m : Memory) (start s o p len : ℕ) (in_buffer : o < s) (fits : len ≤ s)
    (outside : Outside start s p len) where
  stored-moved :
      (x : ℕ)
      → let l = min len (s - o) in
        stored m start s o p len x ≡ moved (moved m (start + o) p l) start (p + l) (len - l) x
  stored-moved x =
      let l = min len (s - o) in
      let first = λ (y : ℕ). memcpy-moved m (start + o) p l y (ground (arith, outside)) in
      memcpy-moved (memcpy m (start + o) p l) start (p + l) (len - l) x (ground (arith, outside))
      ∙ ground (arith, first x, first (p + l + (x - start)))

  pub stored_new : (k : ℕ) → k < len → stored m start s o p len (start + around o k s) ≡ m (p + k)
  stored_new k lt = elim (Bool-cases (ltb (o + k) s)) [
    | inl before ↦
        let near : m (p + (start + (o + k) - (start + o))) ≡ m (p + k) = ap m (omega arith) in
        rw before (stored-moved (start + (o + k)) ∙ ground (arith, near, before))
    | inr behind ↦
        let far : s ≤ o + k
            → k < len
            → m (p + min len (s - o) + (start + (o + k - s) - start)) ≡ m (p + k) =
          λ g h. ap m (omega arith) in
        rw behind (stored-moved (start + (o + k - s)) ∙ ground (arith, far, behind, outside))
  ]

  pub stored_old :
      (k : ℕ)
      → len ≤ k
      → k < s
      → stored m start s o p len (start + around o k s) ≡ m (start + around o k s)
  stored_old k ge lt = elim (Bool-cases (ltb (o + k) s)) [
    | inl before ↦ rw before (stored-moved (start + (o + k)) ∙ ground (arith, before))
    | inr behind ↦ rw behind (stored-moved (start + (o + k - s)) ∙ ground (arith, behind))
  ]

  fetched-moved :
      (x : ℕ)
      → let l = min len (s - o) in
        fetched m start s o p len x ≡ moved (moved m p (start + o) l) (p + l) start (len - l) x
  fetched-moved x =
      let l = min len (s - o) in
      let first = λ (y : ℕ). memcpy-moved m p (start + o) l y (ground (arith, outside)) in
      memcpy-moved (memcpy m p (start + o) l) (p + l) start (len - l) x (ground (arith, outside))
      ∙ ground (arith, first x, first (start + (x - (p + l))))

  pub fetched_new : (k : ℕ) → k < len → fetched m start s o p len (p + k) ≡ m (start + around o k s)
  fetched_new k lt = elim (Bool-cases (ltb (o + k) s)) [
    | inl before ↦
        let near : m (start + o + (p + k - p)) ≡ m (start + (o + k)) = ap m (omega arith) in
        rw before (fetched-moved (p + k) ∙ ground (arith, near, before))
    | inr behind ↦
        let far : s ≤ o + k
            → k < len
            → m (start + (p + k - (p + min len (s - o)))) ≡ m (start + (o + k - s)) =
          λ g h. ap m (omega arith) in
        rw behind (fetched-moved (p + k) ∙ ground (arith, far, behind, outside))
  ]

  pub fetched_old : (k : ℕ) → k < s → fetched m start s o p len (start + k) ≡ m (start + k)
  fetched_old k lt = fetched-moved (start + k) ∙ ground (arith, outside)

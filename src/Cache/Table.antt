-- ===== src/Cache/Table.antt =====
-- src/boot/mm.S: the page table. A memory of words is a function of their addresses; the symbol
-- `__mmu_table`, which no file of the repository defines, is the parameter `table`.
use miniboot.Common.{
  inside, ℕ, zero, suc, ◌+◌, ◌-◌, ◌*◌, ◌/◌, ◌%◌, ◌^◌, ◌<◌, ◌≤◌, ◌≡◌, refl, ◌∙◌, inl, inr,
  Bool-cases, bit_or, ◌==◌, leb, ◌&&◌, if◌then◌else◌, arith,
}
use miniboot.Mem.{Memory, put}
use miniboot.Cache.{bic}

abbrev pub section_shift : ℕ
section_shift = 20

abbrev pub page1m_nomal : ℕ
page1m_nomal = 0x5C1E

abbrev pub page1m_nocache : ℕ
page1m_nocache = 0xC12

abbrev pub sdram_base : ℕ
sdram_base = 0x80000000

abbrev pub sdram_size : ℕ
sdram_size = 0x40000000

-- The loop at `1:`, with the registers `r0`, `r1` and `r2`. `cmp` is before `subne`, and sets the
-- flags for `bne`.
unfoldable pub map_loop : Memory → ℕ → ℕ → ℕ → Memory
map_loop m r0 zero r2 = put m r2 r0
map_loop m r0 (suc r1) r2 =
    map_loop (put m r2 r0) ((r0 + 2 ^ section_shift) % 2 ^ 32) r1 ((r2 + 4) % 2 ^ 32)

module _ (table : ℕ) where
  -- `__map_memory_region(addr, len, flags)`
  unfoldable pub map_memory_region : Memory → ℕ → ℕ → ℕ → Memory
  map_memory_region m addr len flags =
      let r0 = bit_or (bic addr (2 ^ section_shift - 1)) flags in
      map_loop m r0 len ((table + r0 / 2 ^ (section_shift - 2)) % 2 ^ 32)

  -- `__create_page_table`
  unfoldable pub create_page_table : Memory → Memory
  create_page_table m =
      map_memory_region (map_memory_region m 0 4096 page1m_nocache) sdram_base
        (sdram_size / 2 ^ section_shift) page1m_nomal

-- The word at `a`, when `n` words from `base` on have been set to sections from `r0` on.
abbrev sections : Memory → ℕ → ℕ → ℕ → ℕ → ℕ
sections m r0 n base a =
    if inside base (4 * n) a && ((a - base) % 4 == 0)
    then (r0 + (a - base) / 4 * 2 ^ 20) % 2 ^ 32
    else m a

one_more :
    (m : Memory) (r0 r2 n a : ℕ)
    → r0 < 2 ^ 32
    → sections (put m r2 r0) ((r0 + 2 ^ 20) % 2 ^ 32) (n + 1) (r2 + 4) a
      ≡ sections m r0 (suc n + 1) r2 a
one_more m r0 r2 n a small = elim (Bool-cases (a == r2)) [
  | inl here ↦ ground (arith, here)
  | inr away ↦
      let past = λ (le : r2 + 4 ≤ a).
        let z : ((r0 + 2 ^ 20) % 2 ^ 32 + (a - (r2 + 4)) / 4 * 2 ^ 20) % 2 ^ 32
            ≡ (r0 + (a - r2) / 4 * 2 ^ 20) % 2 ^ 32 =
          omega (arith, le) in
        z in
      ground (arith, away, past)
]

-- The loop sets one word more than `r1` says.
map_loop-sections :
    (r1 : ℕ) (m : Memory) (r0 r2 a : ℕ)
    → r0 < 2 ^ 32
    → r2 + 4 * (r1 + 1) ≤ 2 ^ 32
    → map_loop m r0 r1 r2 a ≡ sections m r0 (r1 + 1) r2 a
unfolding map_loop
map_loop-sections zero m r0 r2 a small room = ground arith
map_loop-sections (suc r1) m r0 r2 a small room =
    let next = (r0 + 2 ^ 20) % 2 ^ 32 in
    let on : (r2 + 4) % 2 ^ 32 ≡ r2 + 4 = omega arith in
    rw on (map_loop-sections r1 (put m r2 r0) next (r2 + 4) a (omega arith) (omega arith))
    ∙ one_more m r0 r2 r1 a small

-- The descriptor of section `i`, if the sections from `first` to `last` are SDRAM.
abbrev pub descriptor : ℕ → ℕ → ℕ → ℕ
descriptor first last i =
    i * 2 ^ section_shift % 2 ^ 32
    + (if leb first i && leb i last then page1m_nomal else page1m_nocache)

map_memory_region-sections :
    (table : ℕ) (m : Memory) (addr len flags r0 base a : ℕ)
    → bit_or (bic addr (2 ^ section_shift - 1)) flags ≡ r0
    → (table + r0 / 2 ^ (section_shift - 2)) % 2 ^ 32 ≡ base
    → r0 < 2 ^ 32
    → base + 4 * (len + 1) ≤ 2 ^ 32
    → map_memory_region table m addr len flags a ≡ sections m r0 (len + 1) base a
unfolding map_memory_region
map_memory_region-sections table m addr len flags r0 base a e b small room =
    rw (e, b) (map_loop-sections len m r0 base a small room)

both_regions :
    (m : Memory) (table a : ℕ)
    → sections (sections m 0xC12 4097 table) 0x80005C1E 0x401 (table + 0x2000) a ≡ (
        if inside table (4 * 4097) a && ((a - table) % 4 == 0)
        then descriptor 0x800 0xC00 ((a - table) / 4)
        else m a)
both_regions m table a = ground arith

-- Let there be 4097 words from `table` on. `__create_page_table` sets all of them, one more than a
-- page table has: word `i` becomes the descriptor of the section at `i` MiB, with VA = PA, which can
-- be cached for the 1025 sections from 0x80000000 on and not for the others. So the section behind
-- the 1 GiB of SDRAM, at 0xC0000000, can be cached, and the word behind the table becomes a
-- descriptor of section 0. No other address is written.
pub create_page_table-descriptor :
    (table : ℕ) (m : Memory) (a : ℕ)
    → table + 4 * 4097 ≤ 2 ^ 32
    → create_page_table table m a ≡ (
        if inside table (4 * 4097) a && ((a - table) % 4 == 0)
        then descriptor 0x800 0xC00 ((a - table) / 4)
        else m a)
unfolding create_page_table
create_page_table-descriptor table m a room =
    map_memory_region-sections table (map_memory_region table m 0 4096 page1m_nocache) sdram_base
      0x400 page1m_nomal 0x80005C1E (table + 0x2000) a refl (omega arith) (omega arith)
      (omega arith)
    ∙ rw
        (map_memory_region-sections table m 0 4096 page1m_nocache 0xC12 table a refl (omega arith)
          (omega arith) (omega arith))
        refl
    ∙ both_regions m table a

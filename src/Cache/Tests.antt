-- ===== src/Cache/Tests.antt =====
-- The caches of a chip with lines of 64 bytes, and a page table at 0x80FF8000.
use miniboot.Common.{ℕ, ◌+◌, ◌*◌, ◌≡◌, refl, some, [], ◌∷◌, if◌then◌else◌, arith}
use miniboot.Cache.{
  invalidate, clean, clean_invalidate, on_line, dsb, dcache_line_size, line_loop, v7_inv_range,
  maint_cache, outer_cache, inv_dcache_range, clean_dcache_range, flush_dcache_range,
}
use miniboot.Cache.Cell.{Cell}
use miniboot.Cache.Steps.{touched, whole, Maintains}
use miniboot.Cache.Ranges.{dcache_ranges-Maintains}
use miniboot.Cache.Table.{create_page_table, create_page_table-descriptor}

abbrev ctr : ℕ
ctr = 0x82048004

lines_of_64 : dcache_line_size ctr ≡ 64
unfolding dcache_line_size
lines_of_64 = refl

-- The processor has written a 2 over a 1.
abbrev dirty : Cell
dirty = record { stored = 1; held = some 2 }

-- A byte of the first line, which is not whole, before the start of the range.
dcache_ranges-Maintains_example :
    Maintains 64
      (clean_dcache_range (maint_cache ctr 3) outer_cache 0x80000010 0x80000090)
      (λ i. clean)
      (touched 64 0x80000010 0x80000090)
      []
      dirty
      0x80000008
    × Maintains 64
        (flush_dcache_range (maint_cache ctr 3) outer_cache 0x80000010 0x80000090)
        (λ i. clean_invalidate)
        (touched 64 0x80000010 0x80000090)
        []
        dirty
        0x80000008
    × Maintains 64
        (inv_dcache_range (maint_cache ctr 3) outer_cache 0x80000010 0x80000090)
        (λ i. if whole 64 0x80000010 0x80000090 i then invalidate else clean_invalidate)
        (touched 64 0x80000010 0x80000090)
        []
        dirty
        0x80000008
dcache_ranges-Maintains_example =
    dcache_ranges-Maintains ctr 3 0x80000010 0x80000090 (omega arith) (omega arith) (omega arith) []
      dirty 0x80000008

-- An empty range: the line is thrown away all the same.
empty_range :
    v7_inv_range ctr 3 0x80000040 0x80000040 [] ≡ some (dsb ∷ on_line invalidate 0x80000040 ∷ [])
unfolding v7_inv_range line_loop dcache_line_size
empty_range = refl

create_page_table-descriptor_example :
    create_page_table 0x80FF8000 (λ a. 0) (0x80FF8000 + 4 * 4096) ≡ 0xC12
create_page_table-descriptor_example =
    create_page_table-descriptor 0x80FF8000 (λ a. 0) (0x80FF8000 + 4 * 4096) (omega arith)

-- ===== src/Cache/Ranges.antt =====
-- src/boot/cache.c: what the functions on ranges do to the bytes of memory and cache.
use miniboot.Common.{
  ℕ, suc, ◌+◌, ◌-◌, ◌*◌, ◌/◌, ◌%◌, ◌^◌, ◌<◌, ◌≤◌, ◌≡◌, refl, sym, ap, ◌∙◌, inl, inr, not,
  Bool-cases, none, some, ◌∷◌, ◌==◌, ◌&&◌, ◌||◌, if◌then◌else◌, arith,
}
use miniboot.Cache.{
  call_range, and_then, LineOp, invalidate, clean, clean_invalidate, dsb, Ops, bic, line_loop, edge,
  v7_inv_range, v7_clean_range, v7_flush_range, maint_cache, outer_cache, inv_dcache_range,
  clean_dcache_range, flush_dcache_range,
}
use miniboot.Cache.Walk.{
  lines, line_loop-lines, bytes_of_line, bytes_of_line-two_pow, dcache_line_size_lem, bic-mask,
  bit_and-mask,
}
use miniboot.Cache.Cell.{Cell, after, after-lines}
use miniboot.Cache.Lines.{
  at_start, at_end, between, from_to, is_whole, from_to_lem, is_whole_lem, below_end, below_line,
  last_line, from_start, to_end, in_order, same_line,
}
use miniboot.Cache.Steps.{touched, whole, step, Maintains, twice, pick, up_to}

module _ (ctr fuel : ℕ) where
  abbrev size : ℕ
  size = bytes_of_line ctr

  pos : 0 < size
  pos = let (k, e, z) = bytes_of_line-two_pow ctr in z

  edge-after :
      (r : ℕ) (ops : Ops) (c : Cell) (a : ℕ)
      → after size (edge size r ops) c a
        ≡ step (not (r % size == 0) && (a / size == r / size)) clean_invalidate (after size ops c a)
  unfolding after
  edge-after r ops c a =
      let exact : r / size * size / size ≡ r / size = grind (arith, pos) in
      let bits = bit_and-mask ctr r in
      let cleared : r - r % size ≡ r / size * size = grind (arith, pos) in
      elim (Bool-cases (r % size == 0)) [
        | inl none_left ↦ rw (bits, none_left) refl
        | inr left ↦ rw (bits, left, cleared) (rw exact refl)
      ]

  module _ (start end : ℕ) (some_bytes : start < end) (room : end + size ≤ 2 ^ 32)
      (few : (end - 1) / size - start / size < fuel) where
    over_lines :
        (op : LineOp) (ops : Ops)
        → line_loop op size end fuel (bic start (size - 1)) ops
          ≡ some (lines op size (start / size) (suc ((end - 1) / size - start / size)) ops)
    over_lines op ops = rw (bic-mask ctr start) (
        line_loop-lines op size end ((end - 1) / size) fuel (start / size) ops
          (λ i. below_end size pos end i (omega (arith, some_bytes))) few (grind (arith, pos))
          (grind (arith, pos)))

    -- A loop that goes over all lines, and the barrier behind it.
    loop-Maintains :
        (op : LineOp) (ops : Ops) (c : Cell) (a : ℕ)
        → Maintains size
            (λ o.
              and_then
                (and_then
                  (line_loop op size end fuel (bic start (size - 1)) o)
                  (λ done. some (dsb ∷ done)))
                (call_range none start end))
            (λ i. op)
            (touched size start end)
            ops
            c
            a
    unfolding after
    loop-Maintains op ops c a =
        let q = start / size in
        let k = suc ((end - 1) / size - q) in
        let order : q ≤ (end - 1) / size = grind (arith, pos, some_bytes) in
        (
          dsb ∷ lines op size q k ops,
          rw (over_lines op ops) refl,
          after-lines size op k q ops c a pos ∙ ground (arith, order),
        )

    last_fits : (end / size - 1 + 1) * size < 2 ^ 32
    last_fits =
        let le : end / size * size ≤ end = grind (arith, pos) in
        up_to (end / size) size end (omega (arith, some_bytes)) pos room le

    inv_loop :
        (ops : Ops)
        → line_loop invalidate size (bic end (size - 1)) fuel (bic start (size - 1)) ops
          ≡ some (lines invalidate size (start / size) (suc (end / size - 1 - start / size)) ops)
    inv_loop ops =
        let last = last_line size pos end (omega (arith, some_bytes)) in
        rw (bic-mask ctr start, bic-mask ctr end)
          (line_loop-lines invalidate size (end / size * size) (end / size - 1) fuel (start / size)
            ops (below_line size pos (end / size)) (ground (arith, last, few)) (grind (arith, pos))
            last_fits)

    inv-after :
        (ops : Ops) (c : Cell) (a : ℕ)
        → after size
            (lines invalidate size
              (start / size)
              (suc (end / size - 1 - start / size))
              (edge size end (edge size start ops)))
            c
            a
          ≡ step
              (touched size start end a)
              (if whole size start end a then invalidate else clean_invalidate)
              (after size ops c a)
    inv-after ops c a =
        let q = start / size in
        let e = end / size in
        let i = a / size in
        let rs = start % size in
        let re = end % size in
        let order = in_order size pos start end some_bytes in
        let same = same_line size pos start end some_bytes in
        let cell = after size ops c a in
        let b1 = at_start q e i rs re order same in
        let b2 = at_end q e i rs re order same in
        let b3 = between q e i rs re order same in
        let on : touched size start end a ≡ from_to q e i rs re order same =
          rw (last_line size pos end (omega (arith, some_bytes))) refl in
        let all : whole size start end a ≡ is_whole q e i rs re order same =
          rw (from_start size pos start i, to_end size pos end i) refl in
        after-lines size invalidate (suc (e - 1 - q)) q (edge size end (edge size start ops)) c a
          pos
        ∙ ap (step b3 invalidate) (
            edge-after end (edge size start ops) c a
            ∙ ap (step b2 clean_invalidate) (edge-after start ops c a))
        ∙ twice b1 b2 b3 cell
        ∙ pick (b1 || b2 || b3) (touched size start end a) (not (b1 || b2)) (whole size start end a)
            cell (on ∙ from_to_lem q e i rs re order same)
            (λ t. all ∙ is_whole_lem q e i rs re order same (sym on ∙ t))

    -- The lines have as many words as DminLine in the CTR says. Let the range have a byte, and let it end so far below 4 GiB that no line wraps. On the caches of
    -- mm.S, with no outer cache, each of the functions then ends within one turn for each line of the
    -- range. A byte whose line is touched by the range has then, compared to before the call:
    -- `clean_dcache_range`: in memory, what the processor reads; `flush_dcache_range`: that, and no
    -- copy in the cache; `inv_dcache_range`: no copy in the cache, with memory as it was if the whole
    -- line is in the range, and otherwise with what the processor reads, so that the bytes outside
    -- the range do not get lost. All other bytes are as they were.
    pub dcache_ranges-Maintains :
        (ops : Ops) (c : Cell) (a : ℕ)
        → Maintains size
            (clean_dcache_range (maint_cache ctr fuel) outer_cache start end)
            (λ i. clean)
            (touched size start end)
            ops
            c
            a
          × Maintains size
              (flush_dcache_range (maint_cache ctr fuel) outer_cache start end)
              (λ i. clean_invalidate)
              (touched size start end)
              ops
              c
              a
          × Maintains size
              (inv_dcache_range (maint_cache ctr fuel) outer_cache start end)
              (λ i. if whole size start end i then invalidate else clean_invalidate)
              (touched size start end)
              ops
              c
              a
    unfolding clean_dcache_range flush_dcache_range inv_dcache_range v7_clean_range v7_flush_range
        v7_inv_range after
    dcache_ranges-Maintains ops c a = rw (dcache_line_size_lem ctr) (
      loop-Maintains clean ops c a,
      loop-Maintains clean_invalidate ops c a,
      (
        dsb
            ∷ lines invalidate size (start / size) (suc (end / size - 1 - start / size))
                (edge size end (edge size start ops)),
        rw (inv_loop (edge size end (edge size start ops))) refl,
        inv-after ops c a,
      ),
    )

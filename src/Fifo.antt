-- ===== src/Fifo.antt =====
-- src/lib/fifo.c: the queue of elements in a buffer. The functions take the memory and the record,
-- and give them back.
pub mod Counts
pub mod Bytes
pub mod Listing
pub mod Copies
pub mod Contents
pub mod Refine
pub mod Tests
use miniboot.Common.{
  ℕ, ◌+◌, ◌-◌, ◌*◌, ◌/◌, ◌%◌, ◌^◌, Option, none, some, ◌==◌, leb, ltb, if◌then◌else◌, min,
}
use miniboot.Mem.{Memory, memcpy}

-- `struct fifo`
pub record Fifo : Type 0 where
  pub start : ℕ
  pub esize : ℕ
  pub count : ℕ
  pub unused : ℕ
  pub in_pos : ℕ
  pub out_pos : ℕ

unfoldable pub fifo_unused : Fifo → ℕ
fifo_unused fifo = fifo.unused

-- `fifo->count - fifo->unused`, of u32
unfoldable pub fifo_cached : Fifo → ℕ
fifo_cached fifo = (fifo.count + 2 ^ 32 - fifo.unused) % 2 ^ 32

-- `__fifo_in`, on the memory.
unfoldable pub store_elements : Fifo → ℕ → ℕ → ℕ → Memory → Memory
store_elements fifo src len off m =
    let off' = off * fifo.esize % 2 ^ 32 in
    let len' = len * fifo.esize % 2 ^ 32 in
    let size = fifo.count * fifo.esize % 2 ^ 32 in
    let l = min len' ((size + 2 ^ 32 - off') % 2 ^ 32) in
    if src == 0
    then m
    else memcpy (memcpy m (fifo.start + off') src l) fifo.start (src + l)
        ((len' + 2 ^ 32 - l) % 2 ^ 32)

-- `__fifo_out`, on the memory.
unfoldable pub fetch_elements : Fifo → ℕ → ℕ → ℕ → Memory → Memory
fetch_elements fifo des len off m =
    let off' = off * fifo.esize % 2 ^ 32 in
    let len' = len * fifo.esize % 2 ^ 32 in
    let size = fifo.count * fifo.esize % 2 ^ 32 in
    let l = min len' ((size + 2 ^ 32 - off') % 2 ^ 32) in
    if des == 0
    then m
    else memcpy (memcpy m des (fifo.start + off') l) (des + l) fifo.start
        ((len' + 2 ^ 32 - l) % 2 ^ 32)

-- `if (cnt > limit) cnt = limit;`
abbrev pub at_most : ℕ → ℕ → ℕ
at_most limit cnt = if ltb limit cnt then limit else cnt

unfoldable pub fifo_in : Fifo → ℕ → ℕ → Memory → ℕ × Fifo × Memory
fifo_in fifo src cnt m =
    let n = at_most (fifo_unused fifo) cnt in
    (
      n,
      record fifo {
        in_pos = (fifo.in_pos + n) % 2 ^ 32 % fifo.count;
        unused = (fifo.unused + 2 ^ 32 - n) % 2 ^ 32;
      },
      store_elements fifo src n fifo.in_pos m,
    )

unfoldable pub fifo_out : Fifo → ℕ → ℕ → Memory → ℕ × Fifo × Memory
fifo_out fifo des cnt m =
    let n = at_most (fifo_cached fifo) cnt in
    (
      n,
      record fifo {
        out_pos = (fifo.out_pos + n) % 2 ^ 32 % fifo.count;
        unused = (fifo.unused + n) % 2 ^ 32;
      },
      fetch_elements fifo des n fifo.out_pos m,
    )

unfoldable pub fifo_iaddr : Fifo → ℕ
fifo_iaddr fifo = (fifo.start + fifo.in_pos * fifo.esize) % 2 ^ 32

unfoldable pub fifo_oaddr : Fifo → ℕ
fifo_oaddr fifo = (fifo.start + fifo.out_pos * fifo.esize) % 2 ^ 32

unfoldable pub fifo_cnt2size : Fifo → ℕ → ℕ
fifo_cnt2size fifo cnt = cnt * fifo.esize % 2 ^ 32

unfoldable pub fifo_size2cnt : Fifo → ℕ → ℕ
fifo_size2cnt fifo size = size / fifo.esize

unfoldable pub fifo_reset : Fifo → Fifo
fifo_reset fifo = record fifo { unused = fifo.count; in_pos = 0; out_pos = 0 }

-- What `malloc` returned is a parameter: whether it gave the record a place.
unfoldable pub fifo_init : Option ℕ → ℕ → ℕ → ℕ → Option Fifo
fifo_init none buffer esize cnt = none
fifo_init (some place) buffer esize cnt =
    some
      (record { start = buffer; esize = esize; count = cnt; unused = cnt; in_pos = 0; out_pos = 0 })

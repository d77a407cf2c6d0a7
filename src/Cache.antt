-- ===== src/Cache.antt =====
-- src/boot/cache.c, src/boot/cache.h and the functions of src/boot/mm.S that they call: maintenance
-- of the data caches. What has been done to a cache is a list of operations, the newest first.
pub mod Table
pub mod Walk
pub mod Cell
pub mod Lines
pub mod Steps
pub mod Ranges
pub mod Levels
pub mod Covered
pub mod Tests
use miniboot.Common.{
  ℕ, zero, suc, ◌+◌, ◌-◌, ◌*◌, ◌/◌, ◌%◌, ◌^◌, Bool, Option, none, some, List, ◌∷◌, bit_and, ◌==◌,
  ltb, if◌then◌else◌,
}

-- mcr p15, 0, r, c7, c6, 1; mcr p15, 0, r, c7, c10, 1; mcr p15, 0, r, c7, c14, 1
pub data LineOp : Type 0 where
  invalidate : LineOp
  clean : LineOp
  clean_invalidate : LineOp

-- An operation on the line of an address, and the barrier `dsb`.
pub data CacheOp : Type 0 where
  on_line : LineOp → ℕ → CacheOp
  dsb : CacheOp

abbrev pub Ops : Type 0
Ops = List CacheOp

-- A function on a range, from its start to its end; `none` when the fuel of a loop is used up.
abbrev pub RangeFn : Type 0
RangeFn = ℕ → ℕ → Ops → Option Ops

abbrev pub and_then : Option Ops → (Ops → Option Ops) → Option Ops
and_then none f = none
and_then (some ops) f = f ops

-- A function pointer that is called unless it is null.
abbrev pub call_range : Option RangeFn → RangeFn
call_range none start end ops = some ops
call_range (some f) start end ops = f start end ops

abbrev pub call_all : Option (Ops → Option Ops) → Ops → Option Ops
call_all none ops = some ops
call_all (some f) ops = f ops

pub record MaintCacheFns : Type 0 where
  pub inv_range : Option RangeFn
  pub clean_range : Option RangeFn
  pub flush_range : Option RangeFn

pub record OuterCacheFns : Type 0 where
  pub inv_range : Option RangeFn
  pub clean_range : Option RangeFn
  pub flush_range : Option RangeFn
  pub flush_all : Option (Ops → Option Ops)
  pub inv_all : Option (Ops → Option Ops)
  pub disable : Option (Ops → Option Ops)
  pub sync : Option (Ops → Option Ops)

-- `bic`
abbrev pub bic : ℕ → ℕ → ℕ
bic a b = a - bit_and a b

-- `dcache_line_size`, from the contents of the CTR
unfoldable pub dcache_line_size : ℕ → ℕ
dcache_line_size ctr = 4 * 2 ^ bit_and (ctr / 2 ^ 16) 0xf

-- The loop at `1:`, with the registers `r0` and `r1`; `blo` is at its end.
unfoldable pub line_loop : LineOp → ℕ → ℕ → ℕ → ℕ → Ops → Option Ops
line_loop op line r1 zero r0 ops = none
line_loop op line r1 (suc fuel) r0 ops =
    let ops' : Ops = on_line op r0 ∷ ops in
    let next = (r0 + line) % 2 ^ 32 in
    let rest = line_loop op line r1 fuel next ops' in if ltb next r1 then rest else some ops'

-- `tst`, `bic` and `mcrne` for one end of a range
abbrev pub edge : ℕ → ℕ → Ops → Ops
edge line r ops =
    if bit_and r (line - 1) == 0 then ops else on_line clean_invalidate (bic r (line - 1)) ∷ ops

module _ (ctr fuel : ℕ) where
  -- `__v7_inv_range`
  unfoldable pub v7_inv_range : RangeFn
  v7_inv_range start end ops =
      let line = dcache_line_size ctr in
      and_then
        (line_loop invalidate line (bic end (line - 1)) fuel (bic start (line - 1))
          (edge line end (edge line start ops)))
        (λ done. some (dsb ∷ done))

  -- `__v7_clean_range`
  unfoldable pub v7_clean_range : RangeFn
  v7_clean_range start end ops =
      let line = dcache_line_size ctr in
      and_then (line_loop clean line end fuel (bic start (line - 1)) ops)
        (λ done. some (dsb ∷ done))

  -- `__v7_flush_range`
  unfoldable pub v7_flush_range : RangeFn
  v7_flush_range start end ops =
      let line = dcache_line_size ctr in
      and_then (line_loop clean_invalidate line end fuel (bic start (line - 1)) ops)
        (λ done. some (dsb ∷ done))

  abbrev pub maint_cache : MaintCacheFns
  maint_cache = record {
    inv_range = some v7_inv_range;
    clean_range = some v7_clean_range;
    flush_range = some v7_flush_range;
  }

-- `outer_cache`, which lies in the bss section and is not set by the repository.
abbrev pub outer_cache : OuterCacheFns
outer_cache = record {
  inv_range = none;
  clean_range = none;
  flush_range = none;
  flush_all = none;
  inv_all = none;
  disable = none;
  sync = none;
}

module _ (maint : MaintCacheFns) where
  abbrev pub maint_inv_range : RangeFn
  maint_inv_range start end ops = call_range maint.inv_range start end ops

  abbrev pub maint_clean_range : RangeFn
  maint_clean_range start end ops = call_range maint.clean_range start end ops

  abbrev pub maint_flush_range : RangeFn
  maint_flush_range start end ops = call_range maint.flush_range start end ops

module _ (outer : OuterCacheFns) where
  abbrev pub outer_inv_range : RangeFn
  outer_inv_range start end ops = call_range outer.inv_range start end ops

  abbrev pub outer_clean_range : RangeFn
  outer_clean_range start end ops = call_range outer.clean_range start end ops

  abbrev pub outer_flush_range : RangeFn
  outer_flush_range start end ops = call_range outer.flush_range start end ops

  abbrev pub outer_flush_all : Ops → Option Ops
  outer_flush_all ops = call_all outer.flush_all ops

  abbrev pub outer_inv_all : Ops → Option Ops
  outer_inv_all ops = call_all outer.inv_all ops

  abbrev pub outer_disable : Ops → Option Ops
  outer_disable ops = call_all outer.disable ops

  abbrev pub outer_sync : Ops → Option Ops
  outer_sync ops = call_all outer.sync ops

module _ (maint : MaintCacheFns) (outer : OuterCacheFns) where
  unfoldable pub inv_dcache_range : RangeFn
  inv_dcache_range start end ops =
      and_then (maint_inv_range maint start end ops) (outer_inv_range outer start end)

  unfoldable pub clean_dcache_range : RangeFn
  clean_dcache_range start end ops =
      and_then (maint_clean_range maint start end ops) (outer_clean_range outer start end)

  unfoldable pub flush_dcache_range : RangeFn
  flush_dcache_range start end ops =
      and_then (maint_flush_range maint start end ops) (outer_flush_range outer start end)

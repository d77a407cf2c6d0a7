-- ===== src/Fifo/Refine.antt =====
-- src/lib/fifo.c: `fifo_in` and `fifo_out` against a plain list of bytes.
use miniboot.Fifo.{store_elements, fetch_elements}
use miniboot.Fifo.Listing.{listing}
use miniboot.Common.{
  min, ℕ, ◌+◌, ◌-◌, ◌*◌, ◌%◌, ◌^◌, ◌≤◌, ◌≡◌, ◌≢◌, refl, sym, ap, ap₂, ◌∙◌, [], ◌++◌, append-nil,
  inl, inr, arith,
}
use native.Mathlib.Nat.{mul-le-mul_right}
use miniboot.Mem.{Memory}
use miniboot.Fifo.{Fifo, fifo_unused, fifo_cached, at_most, fifo_in, fifo_out, fifo_reset}
use miniboot.Fifo.Counts.{fifo_counts, fifo_fresh, cached_lem}
use miniboot.Fifo.Bytes.{Outside}
use miniboot.Fifo.Contents.{contents, bytes, store-contents, fetch-contents}
use miniboot.Fifo.Copies.{IsUsable}

Outside-le : (start s p a b e : ℕ) → a ≤ b → Outside start s p (b * e) → Outside start s p (a * e)
Outside-le start s p a b e le (inl below) = inl (omega (arith, mul-le-mul_right e le))
Outside-le start s p a b e le (inr above) = inr above

module _ (fifo : Fifo) (p cnt : ℕ) (m : Memory) (ok : IsUsable fifo) (ne : p ≢ 0)
    (outside : Outside fifo.start (fifo.count * fifo.esize) p (cnt * fifo.esize)) where
  in-contents :
      let (n, fifo', m') = fifo_in fifo p cnt m in
      contents fifo' m' ≡ contents fifo m ++ bytes m p (n * fifo.esize)
  unfolding fifo_in fifo_unused
  in-contents =
      let n = at_most fifo.unused cnt in
      let le : n ≤ fifo.unused = ground arith in
      let few : n ≤ cnt = ground arith in
      let left : (fifo.unused + 2 ^ 32 - n) % 2 ^ 32 ≡ fifo.unused - n =
        omega (arith, le, ok.valid.room, ok.valid.small) in
      ap
        (λ u.
          contents (record fifo { in_pos = (fifo.in_pos + n) % 2 ^ 32 % fifo.count; unused = u })
            (store_elements fifo p n fifo.in_pos m))
        left
      ∙ store-contents fifo ok p n m ne le
          (Outside-le fifo.start (fifo.count * fifo.esize) p n cnt fifo.esize few outside)

  out-contents :
      let (n, fifo', m') = fifo_out fifo p cnt m in
      bytes m' p (n * fifo.esize) ++ contents fifo' m' ≡ contents fifo m
  unfolding fifo_out
  out-contents =
      let n = at_most (fifo.count - fifo.unused) cnt in
      let le : n ≤ fifo.count - fifo.unused = ground arith in
      let few : n ≤ cnt = ground arith in
      let whole : (fifo.out_pos + n) % 2 ^ 32 ≡ fifo.out_pos + n =
        omega (arith, le, ok.valid.out_bound, ok.valid.small) in
      let more : (fifo.unused + n) % 2 ^ 32 ≡ fifo.unused + n =
        omega (arith, le, ok.valid.room, ok.valid.small) in
      let m' = fetch_elements fifo p n fifo.out_pos m in
      rw (cached_lem fifo ok.valid) (
        ap₂
          (λ o u.
            bytes m' p (n * fifo.esize)
            ++ contents (record fifo { out_pos = o % fifo.count; unused = u }) m')
          whole more
        ∙ fetch-contents fifo ok p n m ne le
            (Outside-le fifo.start (fifo.count * fifo.esize) p n cnt fifo.esize few outside))

  in-IsUsable : IsUsable (fifo_in fifo p cnt m).1
  unfolding fifo_in
  in-IsUsable = record {
    valid = (fifo_counts fifo p cnt m ok.valid).0.2;
    sized = ok.sized;
    small = ok.small;
  }

  out-IsUsable : IsUsable (fifo_out fifo p cnt m).1
  unfolding fifo_out
  out-IsUsable = record {
    valid = (fifo_counts fifo p cnt m ok.valid).1.2;
    sized = ok.sized;
    small = ok.small;
  }

-- A valid queue whose buffer is smaller than 2 ^ 32 bytes, and a place that is not null and has no
-- byte of the buffer: `fifo_in` appends the bytes of the elements that it takes to the bytes in the queue, and
-- `fifo_out` puts at the place the bytes of the elements that it gives, which are the first ones in
-- the queue, and leaves the others in it; wherever the buffer wraps. Both keep the queue valid.
pub fifo_refines :
    (fifo : Fifo) (p cnt : ℕ) (m : Memory)
    → IsUsable fifo
    → p ≢ 0
    → Outside fifo.start (fifo.count * fifo.esize) p (cnt * fifo.esize)
    → (let (n, fifo', m') = fifo_in fifo p cnt m in
        (contents fifo' m' ≡ contents fifo m ++ bytes m p (n * fifo.esize)) × IsUsable fifo')
      × (let (n, fifo', m') = fifo_out fifo p cnt m in
          (bytes m' p (n * fifo.esize) ++ contents fifo' m' ≡ contents fifo m) × IsUsable fifo')
fifo_refines fifo p cnt m ok ne outside = (
  (in-contents fifo p cnt m ok ne outside, in-IsUsable fifo p cnt m ok ne outside),
  (out-contents fifo p cnt m ok ne outside, out-IsUsable fifo p cnt m ok ne outside),
)

no-contents : (fifo : Fifo) (m : Memory) → fifo.unused ≡ fifo.count → contents fifo m ≡ []
unfolding contents
no-contents fifo m e =
    let none : (fifo.count - fifo.unused) * fifo.esize ≡ 0 =
      let zero' : fifo.count - fifo.unused ≡ 0 = omega (arith, e) in
      ap (λ t. t * fifo.esize) zero' ∙ omega arith in
    ap (listing _) none

-- The counts of a queue that is filled and emptied again.
round_counts :
    (cnt c n k u1 u2 : ℕ)
    → n ≡ min cnt c
    → u1 + n ≡ c
    → k ≡ min cnt (c - u1)
    → u2 ≡ u1 + k
    → (k ≡ n) × (u2 ≡ c)
round_counts cnt c n k u1 u2 taken left given back = (omega arith, omega arith)

-- Elements that are put into a queue after a reset come out again: `fifo_out` gives as many as
-- `fifo_in` has taken, with the bytes that they had at the source, and the queue is empty then.
pub fifo_roundtrip :
    (old : Fifo) (src des cnt : ℕ) (m : Memory)
    → IsUsable old
    → src ≢ 0
    → des ≢ 0
    → Outside old.start (old.count * old.esize) src (cnt * old.esize)
    → Outside old.start (old.count * old.esize) des (cnt * old.esize)
    → let (n, f1, m1) = fifo_in (fifo_reset old) src cnt m in
      let (k, f2, m2) = fifo_out f1 des cnt m1 in
      (k ≡ n) × (bytes m2 des (k * old.esize) ≡ bytes m src (n * old.esize)) × (fifo_cached f2 ≡ 0)
unfolding fifo_in fifo_out fifo_reset fifo_cached
fifo_roundtrip old src des cnt m ok ns nd os od =
    let f0 = fifo_reset old in
    let fresh = fifo_fresh 0 0 0 old.count old ok.valid.some_count ok.valid.small refl in
    let u0 : IsUsable f0 = record { valid = fresh.2.0; sized = ok.sized; small = ok.small } in
    let r1 = fifo_in f0 src cnt m in
    let r2 = fifo_out r1.1 des cnt r1.2 in
    let (c1, u1) = (fifo_refines f0 src cnt m u0 ns os).0 in
    let (c2, u2) = (fifo_refines r1.1 des cnt r1.2 u1 nd od).1 in
    let (n1, left1, v1) = (fifo_counts f0 src cnt m u0.valid).0 in
    let (n2, left2, v2) = (fifo_counts r1.1 des cnt r1.2 u1.valid).1 in
    let (all_out, full) =
      round_counts cnt old.count r1.0 r2.0 r1.1.unused r2.1.unused n1 left1 n2 left2 in
    (
      all_out,
      sym (append-nil (bytes r2.2 des (r2.0 * old.esize)))
          ∙ ap (λ t. bytes r2.2 des (r2.0 * old.esize) ++ t) (sym (no-contents r2.1 r2.2 full))
          ∙ c2
          ∙ c1
          ∙ ap (λ t. t ++ bytes m src (r1.0 * old.esize)) (no-contents f0 m refl),
      ap (λ u. (old.count + 2 ^ 32 - u) % 2 ^ 32) full ∙ omega arith,
    )

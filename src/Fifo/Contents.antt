-- ===== src/Fifo/Contents.antt =====
-- src/lib/fifo.c: a queue as the list of the bytes in it.
use miniboot.Common.{
  ℕ, ◌+◌, ◌-◌, ◌*◌, ◌%◌, ◌^◌, ◌<◌, ◌≤◌, ◌≡◌, ◌≢◌, sym, ap, ap₂, ◌∙◌, List, ◌++◌, arith,
}
use mathlib.Core.Path.{subst}
use native.Mathlib.Nat.{mul-lt-mul_of_pos_right, mul-le-mul_right}
use miniboot.Mem.{Memory}
use miniboot.Fifo.{Fifo, store_elements, fetch_elements}
use miniboot.Fifo.Copies.{IsUsable, store_elements-stored, fetch_elements-fetched}
use miniboot.Fifo.Bytes.{
  around, stored, fetched, Outside, stored_new, stored_old, fetched_new, fetched_old,
}
use miniboot.Fifo.Listing.{
  listing, listing_cong, listing-append, around_elements, around_twice, around_back, around-lt,
}

-- The bytes of the elements in the queue, the oldest one first.
unfoldable pub contents : Fifo → Memory → List ℕ
contents fifo m =
    listing (λ k. m (fifo.start + around (fifo.out_pos * fifo.esize) k (fifo.count * fifo.esize)))
      ((fifo.count - fifo.unused) * fifo.esize)

-- `n` bytes of the memory from `a` on.
unfoldable pub bytes : Memory → ℕ → ℕ → List ℕ
bytes m a n = listing (λ k. m (a + k)) n

module _ (fifo : Fifo) (ok : IsUsable fifo) where
  abbrev size : ℕ
  size = fifo.count * fifo.esize

  used : ℕ
  used = (fifo.count - fifo.unused) * fifo.esize

  -- The input position in bytes.
  in_place : fifo.in_pos * fifo.esize ≡ around (fifo.out_pos * fifo.esize) used size
  unfolding used
  in_place =
      ap (λ t. t * fifo.esize) (sym ok.valid.between)
      ∙ around_elements fifo.out_pos (fifo.count - fifo.unused) fifo.count fifo.esize
          ok.valid.out_bound (omega arith) ok.sized

  out_lt : fifo.out_pos * fifo.esize < size
  out_lt = mul-lt-mul_of_pos_right ok.valid.out_bound ok.sized

  used_le : used ≤ size
  unfolding used
  used_le = mul-le-mul_right fifo.esize (omega arith)

  -- What `fifo_in` leaves, for the number of elements that it takes.
  module _ (src n : ℕ) (m : Memory) (ne : src ≢ 0) (fits : n ≤ fifo.unused)
      (outside : Outside fifo.start size src (n * fifo.esize)) where
    abbrev after_in : Memory
    after_in = store_elements fifo src n fifo.in_pos m

    after_in-stored :
        (x : ℕ)
        → after_in x ≡ stored m fifo.start size (fifo.in_pos * fifo.esize) src (n * fifo.esize) x
    after_in-stored x =
        let all =
          store_elements-stored fifo ok src n fifo.in_pos m ne ok.valid.in_bound
            (omega (arith, ok.valid.room)) in
        ap (λ t. t x) all

    in_lt : fifo.in_pos * fifo.esize < size
    in_lt = mul-lt-mul_of_pos_right ok.valid.in_bound ok.sized

    room_bytes : n * fifo.esize + used ≤ size
    unfolding used
    room_bytes =
        let le : n + (fifo.count - fifo.unused) ≤ fifo.count = omega (arith, ok.valid.room) in
        omega (arith, mul-le-mul_right fifo.esize le)

    kept_byte :
        (k : ℕ)
        → k < used
        → after_in (fifo.start + around (fifo.out_pos * fifo.esize) k size)
          ≡ m (fifo.start + around (fifo.out_pos * fifo.esize) k size)
    kept_byte k lt =
        let shift : around (fifo.in_pos * fifo.esize) (size - used + k) size
            ≡ around (fifo.out_pos * fifo.esize) k size =
          ap (λ t. around t (size - used + k) size) in_place
          ∙ around_back (fifo.out_pos * fifo.esize) used k size out_lt lt used_le in
        subst (λ t. after_in (fifo.start + t) ≡ m (fifo.start + t)) shift
          (after_in-stored _
            ∙ stored_old m fifo.start size (fifo.in_pos * fifo.esize) src (n * fifo.esize) in_lt
                (omega (arith, room_bytes)) outside (size - used + k) (omega (arith, room_bytes))
                (omega (arith, used_le, lt)))

    new_byte :
        (k : ℕ)
        → k < n * fifo.esize
        → after_in (fifo.start + around (fifo.out_pos * fifo.esize) (used + k) size) ≡ m (src + k)
    new_byte k lt =
        let shift : around (fifo.in_pos * fifo.esize) k size
            ≡ around (fifo.out_pos * fifo.esize) (used + k) size =
          ap (λ t. around t k size) in_place
          ∙ around_twice (fifo.out_pos * fifo.esize) used k size out_lt
              (omega (arith, room_bytes)) in
        subst (λ t. after_in (fifo.start + t) ≡ m (src + k)) shift
          (after_in-stored _
            ∙ stored_new m fifo.start size (fifo.in_pos * fifo.esize) src (n * fifo.esize) in_lt
                (omega (arith, room_bytes)) outside k lt)

    pub store-contents :
        contents
          (record fifo {
            in_pos = (fifo.in_pos + n) % 2 ^ 32 % fifo.count;
            unused = fifo.unused - n;
          })
          after_in
        ≡ contents fifo m ++ bytes m src (n * fifo.esize)
    unfolding contents bytes used
    store-contents =
        let o = fifo.out_pos * fifo.esize in
        let f = λ (k : ℕ). after_in (fifo.start + around o k size) in
        let more : fifo.count - (fifo.unused - n) ≡ fifo.count - fifo.unused + n =
          omega (arith, ok.valid.room) in
        let split : (fifo.count - (fifo.unused - n)) * fifo.esize ≡ used + n * fifo.esize =
          ap (λ t. t * fifo.esize) more ∙ omega arith in
        ap (listing f) split
        ∙ listing-append used (n * fifo.esize) f
        ∙ ap₂ ◌++◌ (listing_cong used f (λ k. m (fifo.start + around o k size)) kept_byte)
            (listing_cong (n * fifo.esize) (λ k. f (used + k)) (λ k. m (src + k)) new_byte)

  -- What `fifo_out` leaves, for the number of elements that it gives.
  module _ (des n : ℕ) (m : Memory) (ne : des ≢ 0) (fits : n ≤ fifo.count - fifo.unused)
      (outside : Outside fifo.start size des (n * fifo.esize)) where
    abbrev after_out : Memory
    after_out = fetch_elements fifo des n fifo.out_pos m

    after_out-fetched :
        (x : ℕ)
        → after_out x ≡ fetched m fifo.start size (fifo.out_pos * fifo.esize) des (n * fifo.esize) x
    after_out-fetched x =
        let all =
          fetch_elements-fetched fifo ok des n fifo.out_pos m ne ok.valid.out_bound
            (omega (arith, ok.valid.room)) in
        ap (λ t. t x) all

    given_bytes : n * fifo.esize ≤ used
    unfolding used
    given_bytes = mul-le-mul_right fifo.esize fits

    given_byte :
        (k : ℕ)
        → k < n * fifo.esize
        → after_out (des + k) ≡ m (fifo.start + around (fifo.out_pos * fifo.esize) k size)
    given_byte k lt =
        after_out-fetched (des + k)
        ∙ fetched_new m fifo.start size (fifo.out_pos * fifo.esize) des (n * fifo.esize) out_lt
            (omega (arith, given_bytes, used_le)) outside k lt

    left_byte :
        (k : ℕ)
        → k < used - n * fifo.esize
        → after_out
            (fifo.start + around (around (fifo.out_pos * fifo.esize) (n * fifo.esize) size) k size)
          ≡ m (fifo.start + around (fifo.out_pos * fifo.esize) (n * fifo.esize + k) size)
    left_byte k lt =
        let o = fifo.out_pos * fifo.esize in
        let sum : n * fifo.esize + k < size = omega (arith, used_le) in
        ap (λ t. after_out (fifo.start + t)) (around_twice o (n * fifo.esize) k size out_lt sum)
        ∙ after_out-fetched _
        ∙ fetched_old m fifo.start size o des (n * fifo.esize) out_lt
            (omega (arith, given_bytes, used_le)) outside (around o (n * fifo.esize + k) size)
            (around-lt o (n * fifo.esize + k) size out_lt (omega (arith, sum)))

    pub fetch-contents :
        bytes after_out des (n * fifo.esize)
          ++ contents
              (record fifo { out_pos = (fifo.out_pos + n) % fifo.count; unused = fifo.unused + n })
              after_out
        ≡ contents fifo m
    unfolding contents bytes used
    fetch-contents =
        let o = fifo.out_pos * fifo.esize in
        let l = n * fifo.esize in
        let f = λ (k : ℕ). m (fifo.start + around o k size) in
        let out' : (fifo.out_pos + n) % fifo.count * fifo.esize ≡ around o l size =
          around_elements fifo.out_pos n fifo.count fifo.esize ok.valid.out_bound
            (omega (arith, ok.valid.room)) ok.sized in
        let back : fifo.count - (fifo.unused + n) + n ≡ fifo.count - fifo.unused = omega arith in
        let left : (fifo.count - (fifo.unused + n)) * fifo.esize ≡ used - l =
          omega (arith, ap (λ t. t * fifo.esize) back) in
        let whole : l + (used - l) ≡ used = omega (arith, given_bytes) in
        ap₂ ◌++◌ (listing_cong l (λ k. after_out (des + k)) f given_byte) (
          ap₂ (λ t c. listing (λ k. after_out (fifo.start + around t k size)) c) out' left
          ∙ listing_cong (used - l) _ (λ k. f (l + k)) left_byte)
        ∙ sym (listing-append l (used - l) f)
        ∙ ap (listing f) whole

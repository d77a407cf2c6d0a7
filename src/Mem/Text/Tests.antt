-- ===== src/Mem/Text/Tests.antt =====
-- A line of text in a memory, and the theorems about strings of src/lib/string.c at it.
use miniboot.Common.{ℕ, ◌^◌, ◌<◌, ◌≡◌, ◌↔◌, refl, inl, some, ◌==◌, if◌then◌else◌, arith}
use miniboot.Mem.{Memory}
use miniboot.Mem.Move.{moved}
use miniboot.Mem.Text.{strlen, strlen_loop, strcpy, strcmp}
use miniboot.Mem.Text.Copy.{IsString}
use miniboot.Mem.Text.Compare.{IsSame, strcmp-IsSame}
use miniboot.Mem.Text.Roundtrip.{strcpy_roundtrip}

-- "hi" and a line feed at 0x100; zeros everywhere else.
abbrev pub hello : Memory
hello a = if a == 0x100 then 104 else (if a == 0x101 then 105 else (if a == 0x102 then 10 else 0))

pub hello-byte : (a : ℕ) → hello a < 2 ^ 8
hello-byte a = ground arith

pub hello-IsString : IsString hello 0x100 3
hello-IsString = record { body = λ i lt e. ground arith; end = refl }

empty-IsString : IsString hello 0x200 0
empty-IsString = record { body = λ i lt e. absurd (omega arith); end = refl }

hello_length : strlen 9 hello 0x100 ≡ some 3
unfolding strlen strlen_loop
hello_length = refl

strcpy_roundtrip_example :
    (m' : Memory) × (strcpy 9 hello 0x80 0x100 ≡ some m')
    × ((x : ℕ) → m' x ≡ moved hello 0x80 0x100 4 x)
    × (strlen 9 m' 0x80 ≡ some 3)
    × (strcmp 9 m' 0x80 0x100 ≡ some 0)
strcpy_roundtrip_example =
    strcpy_roundtrip 3 9 hello 0x80 0x100 hello-IsString (inl (omega arith)) (omega arith)
      hello-byte

strcmp-IsSame_example :
    (r : ℕ) × (strcmp 9 hello 0x100 0x200 ≡ some r) × ((r ≡ 0) ↔ IsSame hello 0x100 3 0x200 0)
strcmp-IsSame_example =
    strcmp-IsSame hello hello-byte 3 0 9 0x100 0x200 hello-IsString empty-IsString (omega arith)

-- ===== src/Mem/Tests.antt =====
-- Runs of src/lib/string.c on a memory whose byte at an address is its low byte.
use miniboot.Common.{◌%◌, ◌≡◌, refl, inr, arith}
use miniboot.Mem.{Memory, memmove, memset, memcpy, memcmp, copy_down}
use miniboot.Mem.Move.{moved, memmove-moved}
use miniboot.Mem.Order.{Outcome, memcmp-Outcome}
use miniboot.Mem.Copy.{filled, memset-filled, memcpy-moved}

abbrev ramp : Memory
ramp a = a % 256

overlapping : memmove ramp 0x102 0x100 4 0x105 ≡ 3
unfolding memmove copy_down
overlapping = refl

memmove-moved_example : memmove ramp 0x102 0x100 4 0x105 ≡ moved ramp 0x102 0x100 4 0x105
memmove-moved_example = memmove-moved ramp 0x102 0x100 4 0x105

memcpy-moved_example : memcpy ramp 0x200 0x100 7 0x206 ≡ moved ramp 0x200 0x100 7 0x206
memcpy-moved_example = memcpy-moved ramp 0x200 0x100 7 0x206 (inr (omega arith))

memcmp-Outcome_example : Outcome ramp 0x100 0x201 3 (memcmp ramp 0x100 0x201 3)
memcmp-Outcome_example = memcmp-Outcome ramp (λ a. omega arith) 3 0x100 0x201

memset-filled_example : memset ramp 0x200 0x1FF 7 0x206 ≡ filled ramp 0x200 (0x1FF % 256) 7 0x206
memset-filled_example = memset-filled ramp 0x200 0x1FF 7 0x206

-- ===== src/Bus.antt =====
-- The memory-mapped bus of include/asm/io.h. What the hardware answers is a parameter: a function
-- of everything that has gone over the bus so far, so that every deterministic device is one.
pub mod Poll
pub mod Ends
pub mod Gives
pub mod Spares
use miniboot.Common.{
  ℕ, ◌%◌, ◌^◌, ◌-◌, ◌≡◌, Option, none, some, List, [], ◌∷◌, bit_and, bit_or, ◌==◌, if◌then◌else◌,
}

pub data Width : Type 0 where
  byte half word : Width

-- One access, with the value that went over the bus. `pause n` is the register loop of `sdelay`,
-- which touches no memory.
pub data Event : Type 0 where
  rd : Width → ℕ → ℕ → Event
  wr : Width → ℕ → ℕ → Event
  pause : ℕ → Event

-- Newest event first.
abbrev pub Trace : Type 0
Trace = List Event

abbrev pub Device : Type 0
Device = Width → ℕ → Trace → ℕ

-- What has become of a run: a busy-wait loop has used up its fuel, the program has called through
-- a null function pointer, or it has returned.
pub data Run (A : Type 0) : Type 0 where
  spinning : Run A
  crash : Trace → Run A
  done : A → Trace → Run A

abbrev pub Prog : Type 0 → Type 0
Prog A = Trace → Run A

abbrev pub pure : {A : Type 0} → A → Prog A
pure a h = done a h

-- What follows a step that has returned, or has not.
abbrev pub proceed : {A B : Type 0} → Run A → (A → Prog B) → Run B
proceed spinning f = spinning
proceed (crash h) f = crash h
proceed (done a h) f = f a h

infixl 5 ◌>>=◌ ◌>>◌
abbrev pub ◌>>=◌ : {A B : Type 0} → Prog A → (A → Prog B) → Prog B
◌>>=◌ m f h = proceed (m h) f

abbrev pub ◌>>◌ : {B : Type 0} → Prog (Unit {0}) → Prog B → Prog B
m >> k = m >>= λ _. k

abbrev pub size : Width → ℕ
size byte = 2 ^ 8
size half = 2 ^ 16
size word = 2 ^ 32

-- The value of a register of that width. `writeb`, `writew` and `writel` pass the low bits on.
abbrev pub reply : Device → Width → ℕ → Trace → ℕ
reply dev w a h = dev w a h % size w

module _ (dev : Device) where
  abbrev pub read : Width → ℕ → Prog ℕ
  read w a h = done (reply dev w a h) (rd w a (reply dev w a h) ∷ h)

  abbrev pub readb : ℕ → Prog ℕ
  readb = read byte

  abbrev pub readw : ℕ → Prog ℕ
  readw = read half

  abbrev pub readl : ℕ → Prog ℕ
  readl = read word

abbrev pub writeb : ℕ → ℕ → Prog (Unit {0})
writeb v a h = done tt (wr byte a (v % 2 ^ 8) ∷ h)

abbrev pub writew : ℕ → ℕ → Prog (Unit {0})
writew v a h = done tt (wr half a (v % 2 ^ 16) ∷ h)

abbrev pub writel : ℕ → ℕ → Prog (Unit {0})
writel v a h = done tt (wr word a (v % 2 ^ 32) ∷ h)

-- `~m` of a 32-bit mask, and of a 16-bit one.
abbrev pub bit_not32 : ℕ → ℕ
bit_not32 m = 2 ^ 32 - 1 - m

abbrev pub bit_not16 : ℕ → ℕ
bit_not16 m = 2 ^ 16 - 1 - m

abbrev pub clrsetbits : Device → ℕ → ℕ → ℕ → Prog (Unit {0})
clrsetbits dev a clr set = do v ← readl dev a; writel (bit_or (bit_and v (bit_not32 clr)) set) a

-- The writes of a trace, newest first: what the program did to the hardware.
unfoldable pub writes : Trace → Trace
writes [] = []
writes (rd w a v ∷ h) = writes h
writes (wr w a v ∷ h) = wr w a v ∷ writes h
writes (pause n ∷ h) = writes h

-- What was last written to an address, at any width.
unfoldable pub find_write : ℕ → Trace → Option ℕ
find_write a [] = none
find_write a (rd w b v ∷ h) = find_write a h
find_write a (wr w b v ∷ h) = if b == a then some v else find_write a h
find_write a (pause n ∷ h) = find_write a h

unfoldable pub last_written : ℕ → Trace → Option ℕ
unfolding find_write writes
last_written a h = find_write a (writes h)

-- ===== src/Lib.antt =====
-- Verification of miniboot, the first-stage boot loader for the AM335x in this repository.
--
-- Parts and files
--   Bus      include/asm/io.h: the accessors readb to writel. A program is a function from the
--            trace of all accesses so far (newest first) to a run: it has returned with a value and
--            a longer trace, it has called through a null function pointer, or a busy-wait loop has
--            used up its fuel. The device is a parameter: it answers a read with any function of
--            the width, the address and the trace. Bus/Poll is the loop that waits for a register,
--            Bus/Ends, Bus/Gives and Bus/Spares say which programs always return, with which values,
--            and without writing to an address.
--   Regs     include/asm/regs.h: the registers of the clock manager (Regs/Clocks) and of the memory
--            controller and its PHY (Regs/Memory) that the code names.
--   Timer    src/boot/timer.c: timer_init, udelay, sdelay. Timer/Wait has the theorems.
--   Clock    src/boot/clock.c: prcm_init and all that it calls, with the tables in Clock/Tables.
--            Clock/Select is the M and N fields, Clock/Dpll the reprogramming of one PLL,
--            Clock/Divider the four of them, Clock/Frames what they leave alone, Clock/Modules the clock
--            domains and modules.
--   Nand     src/boot/nand.c, src/boot/nand_ids.c and include/nand.h. Nand/Chip is the chip record
--            and its constants, Nand/Ids the table, Nand/Command the two command functions,
--            Nand/Read page reads, bad blocks and nand_load, Nand/Init the probing of the chip.
--            Nand/Returns, Nand/Blocks, Nand/Pages, Nand/Stretch, Nand/Load and Nand/Probe say what is
--            sent to the chip and which pages are read. Nand/Card is the chip's side of the protocol,
--            for small pages; Nand/Cycles, Nand/Store, Nand/Memory, Nand/Copied, Nand/Loaded and
--            Nand/Bytes follow the bytes into memory, Nand/Identify is the probing of such a chip,
--            and Nand/Simulated is a chip that keeps to the protocol.
--   Gpmc     src/boot/gpmc.c; Gpmc/Probe has the theorem, which is about Nand/Init as well.
--   I2c      src/boot/i2c.c and include/i2c.h. I2c.antt has the register accesses, the waiting loops,
--            the reset and check_error (await_status and judge), I2c/Message one message and several
--            (__xfer_msg, omap_i2c_xfer), I2c/Adapter the adapters and i2c_transfer. I2c/Ending,
--            I2c/Transfer, I2c/Retry, I2c/Quiet, I2c/Stuck, I2c/Lost and I2c/Setup have the theorems.
--   Tps      src/boot/tps65910.c over the transfers of I2c; Tps/Returns and Tps/Lost have the theorems.
--   Ddr      src/boot/ddr.c and src/boot/ddr.h: config_ddr and all that it calls. Ddr/Sdram and
--            Ddr/Setup are what it leaves in the registers, Ddr/Macros where the values of the data macros go.
--   Mux      src/boot/mux.c: configure_module_pin_mux, with its tables in Mux/Tables and the layout of
--            the pads (include/asm/regs.h) in Mux/Pads. Mux/Writes has the theorem.
--   Info     src/boot/sys_info.c: the speed grade and the voltage; Info/Grades says what they can be.
--   Boot     src/boot/main.c: lowlevel_init, which calls the other parts in their order (s_init and
--            spl_board_init are the parts that its comments name). Boot/Watchdog and Boot/Pads have
--            theorems about its parts, Boot/Prepared what holds behind s_init, Boot/Returns
--            how far the start-up gets, Boot/Image the whole of it with the pages that it reads, and
--            Boot/Content with the bytes of the image in memory.
--   Ssl      src/lib/ssl.c: crc8, w1_crc8, crc16 and __sha1 (sha1_block), with the tables in
--            Ssl/Tables. Ssl/Reference has the bitwise checksums and the equations of FIPS 180-1,
--            Ssl/Xor and Ssl/Words are laws of words, Ssl/Crc, Ssl/Schedule and Ssl/Sha the theorems.
--   Cache    src/boot/cache.c, src/boot/cache.h and the functions of src/boot/mm.S that they call.
--            Cache/Walk and Cache/Lines are about the lines that the loops take, Cache/Cell says what
--            the operations do to a byte in memory and cache, which is the hardware's part, and
--            Cache/Steps and Cache/Ranges put these together. Cache/Levels is armv7_inv_dcache, with its lemmas
--            in Cache/Covered, and Cache/Table is the page table of mm.S.
--   Mem      src/lib/string.c: memcmp, memset, memcpy and memmove, and in Mem/Text the functions on
--            strings. Mem/Move, Mem/Copy, Mem/Order, Mem/Text/Copy, Mem/Text/Compare and
--            Mem/Text/Roundtrip have the theorems.
--   Fifo     src/lib/fifo.c over the memory of Mem. Fifo/Counts is about the positions and counts,
--            Fifo/Bytes, Fifo/Listing, Fifo/Copies and Fifo/Contents about the bytes in the buffer,
--            and Fifo/Refine has the theorems on them. What malloc returns is a parameter of fifo_init.
--   Console  src/lib/stdio.c over the memory of Mem: the calls of a device's putc are recorded, and
--            vsprintf is a parameter of printf. Console/Lines has the theorem.
--   Stdlib   src/lib/stdlib.c: absv, srand and rand, with their ranges in Stdlib/Bounds.
--   Common   list, Boolean and bit lemmas.
--
-- The NAND and I2C code waits with udelay of src/boot/timer.c, so the theorems take over the
-- assumption that the timer advances. A Tests module in a part evaluates definitions and applies the
-- theorems at concrete devices.
--
-- Representation
--   A machine word is a natural number, and every operation that can wrap is written with its
--   modulus. A signed number is kept as its bit pattern, with the comparisons of the source spelled
--   out. A function pointer is a constructor per function that the code stores there, plus null.
--   Bytes that a driver stores in memory appear in the trace like writes to registers. A NAND chip
--   is not part of the code: where a theorem depends on what it holds, the device is assumed to keep
--   to the protocol of Nand/Card. Division by
--   zero, which the code does on a chip whose sizes have not been set, gives 0 here.
--
-- Fuel
--   A loop that waits for hardware takes fuel, and a theorem says how much is enough: for udelay it
--   is 4294969 turns, more than the largest tick count that the code computes; for a register poll
--   it is one more than the number of reads after which the device settles, and so it is for the
--   reset of the I2C controller. The loop of nand_load has no bound in the source (it never ends when
--   all blocks are bad); here it ends within one more turn than the blocks that it looks at.
--
-- Not modelled
--   src/lib/malloc.c, src/lib/vsprintf.c, src/lib/ctype.c and list.h are copies of other projects.
--   start.S is assembly; of mm.S, __enable_cache is a fixed sequence of coprocessor instructions.
pub mod Cache
pub mod Common
pub mod Bus
pub mod Regs
pub mod Timer
pub mod Clock
pub mod Nand
pub mod I2c
pub mod Tps
pub mod Ssl
pub mod Mem
pub mod Fifo
pub mod Gpmc
pub mod Mux
pub mod Ddr
pub mod Info
pub mod Boot
pub mod Console
pub mod Stdlib

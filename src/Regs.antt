-- ===== src/Regs.antt =====
-- include/asm/regs.h: where the registers are. The offsets of the pads are in Mux/Pads, and those of
-- the I2C controller in I2c.
pub mod Clocks
pub mod Memory

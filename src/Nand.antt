-- ===== src/Nand.antt =====
-- include/nand.h and src/boot/nand.c: the NAND chip, its command protocol and the image loader.
pub mod Chip
pub mod Ids
pub mod Command
pub mod Read
pub mod Init
pub mod Returns
pub mod Blocks
pub mod Pages
pub mod Stretch
pub mod Load
pub mod Probe
pub mod Card
pub mod Cycles
pub mod Store
pub mod Memory
pub mod Copied
pub mod Loaded
pub mod Bytes
pub mod Identify
pub mod Simulated
pub mod Tests

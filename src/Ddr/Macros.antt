-- ===== src/Ddr/Macros.antt =====
-- src/boot/ddr.c: where the values of the data macros go.
use miniboot.Common.{◌^◌, ◌%◌, ℕ, ◌<◌, ◌≤◌, ◌≡◌, refl, some, arith}
use miniboot.Bus.{done, Trace, writes, find_write, last_written}
use miniboot.Ddr.{DdrData, config_data_macros, config_ddr_data}

-- `config_ddr_data` returns and writes no register from 0x44E120C8, which is DDR_PHY_DATA_ADDR,
-- below 0x44E12190: the base address counts the offset 0xC8 of the first register a second time.
-- For the first macro, the first ratio goes to 0x44E12190 and the last one to 0x44E121E8.
pub config_ddr_data-misplaced :
    (d : DdrData) (h : Trace)
    → (h' : Trace) × (config_ddr_data d h ≡ done tt h')
      × ((a : ℕ) → 0x44E120C8 ≤ a → a < 0x44E12190 → last_written a h' ≡ last_written a h)
      × (last_written 0x44E12190 h' ≡ some (d.datardsratio0 % 2 ^ 32))
      × (last_written 0x44E121E8 h' ≡ some (d.datawrsratio0 % 2 ^ 32))
unfolding config_ddr_data config_data_macros last_written writes find_write
config_ddr_data-misplaced d h = (_, refl, (λ a l u. ground arith), refl, refl)

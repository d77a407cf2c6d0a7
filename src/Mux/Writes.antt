-- ===== src/Mux/Writes.antt =====
-- src/boot/mux.c: what `configure_module_pin_mux` leaves in the registers.
use miniboot.Common.{
  ◌<◌, ◌||◌, ℕ, ◌+◌, ◌%◌, ◌^◌, ◌≤◌, ◌≡◌, refl, sym, ◌∙◌, ◌-◌, inl, inr, Bool, true, false,
  Bool-cases, ◌&&◌, not, some, List, [], ◌∷◌, All, All-map, ◌==◌, leb, ltb, if◌then◌else◌, arith,
}
use miniboot.Bus.{done, Trace, wr, word, writes, find_write, last_written}
use miniboot.Mux.{ctrl_base, configure_module_pin_mux}
use miniboot.Mux.Pads.{pin, position}
use miniboot.Mux.Tables.{
  ModulePinMux, uart0_pin_mux, uart1_pin_mux, uart2_pin_mux, uart3_pin_mux, uart4_pin_mux,
  uart5_pin_mux, mmc0_pin_mux, mmc0_no_cd_pin_mux, mmc0_pin_mux_sk_evm, mmc1_pin_mux, i2c0_pin_mux,
  i2c1_pin_mux, spi0_pin_mux, gpio0_7_pin_mux, rgmii1_pin_mux, mii1_pin_mux, nand_pin_mux,
}

-- The entries in front of the one whose offset is -1.
unfoldable pub entries : List ModulePinMux → List ModulePinMux
entries [] = []
entries (e ∷ mux) = if e.offs == 0xFFFFFFFF then [] else e ∷ entries mux

unfoldable pub names : ℕ → List ModulePinMux → Bool
names offs [] = false
names offs (e ∷ es) = if e.offs == offs then true else names offs es

-- The offsets are those of pads, the values fit the register, and no pad comes twice.
unfoldable pub is_table : List ModulePinMux → Bool
unfolding names
is_table [] = true
is_table (e ∷ es) =
    leb 0x800 e.offs
    && ltb e.offs 0xB38
    && ltb e.val (2 ^ 32)
    && not (names e.offs es)
    && is_table es

-- The register at the offset of an entry was last given its value.
abbrev pub HasValue : Trace → ModulePinMux → Type 0
HasValue h e = last_written (ctrl_base + e.offs) h ≡ some e.val

-- The trace after the writes of a list of entries.
unfoldable pub put : List ModulePinMux → Trace → Trace
put [] h = h
put (e ∷ es) h = put es (wr word (ctrl_base + e.offs) (e.val % 2 ^ 32) ∷ h)

-- What the table has done: one write for each entry, in order, and nothing else. So each entry is in
-- place, and every other register is as it was.
pub record Configured (mux : List ModulePinMux) (h h' : Trace) : Type 0 where
  pub trace : h' ≡ put (entries mux) h
  pub set : All (HasValue h') (entries mux)
  pub kept :
      (offs : ℕ)
      → names offs (entries mux) ≡ false
      → last_written (ctrl_base + offs) h' ≡ last_written (ctrl_base + offs) h
  pub outside : (a : ℕ) → a < ctrl_base → last_written a h' ≡ last_written a h
  pub within : (a : ℕ) → ctrl_base + 0xB38 ≤ a → last_written a h' ≡ last_written a h
  pub below :
      (offs : ℕ)
      → offs < 0x800
      → last_written (ctrl_base + offs) h' ≡ last_written (ctrl_base + offs) h

configure_module_pin_mux-put :
    (mux : List ModulePinMux) (h : Trace)
    → configure_module_pin_mux mux h ≡ done tt (put (entries mux) h)
unfolding configure_module_pin_mux entries put
configure_module_pin_mux-put [] h = refl
configure_module_pin_mux-put (e ∷ mux) h = elim (Bool-cases (e.offs == 0xFFFFFFFF)) [
  | inl last ↦ rw last refl
  | inr more ↦ rw more (configure_module_pin_mux-put mux _)
]

last_written-put :
    (es : List ModulePinMux) (offs : ℕ) (h : Trace)
    → names offs es ≡ false
    → last_written (ctrl_base + offs) (put es h) ≡ last_written (ctrl_base + offs) h
unfolding put names last_written writes find_write
last_written-put [] offs h n = refl
last_written-put (e ∷ es) offs h n =
    last_written-put es offs (wr word (ctrl_base + e.offs) (e.val % 2 ^ 32) ∷ h) (ground arith)
    ∙ ground arith

last_written-outside :
    (es : List ModulePinMux) (a : ℕ) (h : Trace)
    → a < ctrl_base
    → last_written a (put es h) ≡ last_written a h
unfolding put last_written writes find_write
last_written-outside [] a h low = refl
last_written-outside (e ∷ es) a h low =
    last_written-outside es a (wr word (ctrl_base + e.offs) (e.val % 2 ^ 32) ∷ h) low
    ∙ ground (arith, low)

put-HasValue :
    (es : List ModulePinMux) (h : Trace) → is_table es ≡ true → All (HasValue (put es h)) es
unfolding put is_table last_written writes find_write
put-HasValue [] h ok = tt
put-HasValue (e ∷ es) h ok = (
  last_written-put es e.offs (wr word (ctrl_base + e.offs) (e.val % 2 ^ 32) ∷ h) (ground arith)
      ∙ ground arith,
  put-HasValue es _ (ground arith),
)

abbrev is_outside : ℕ → Bool
is_outside offs = leb 0xB38 offs || ltb offs 0x800

names-is_table :
    (es : List ModulePinMux) (offs : ℕ)
    → is_table es ≡ true
    → is_outside offs ≡ true
    → names offs es ≡ false
unfolding is_table names
names-is_table [] offs ok l = refl
names-is_table (e ∷ es) offs ok l = ground (arith, names-is_table es offs)

pub configure_module_pin_mux-Configured :
    (mux : List ModulePinMux)
    → is_table (entries mux) ≡ true
    → (h : Trace)
    → (h' : Trace) × (configure_module_pin_mux mux h ≡ done tt h') × Configured mux h h'
configure_module_pin_mux-Configured mux ok h = (
  put (entries mux) h,
  configure_module_pin_mux-put mux h,
  record {
    trace = refl;
    set = put-HasValue (entries mux) h ok;
    kept = λ offs n. last_written-put (entries mux) offs h n;
    outside = λ a l. last_written-outside (entries mux) a h l;
    within = λ a l.
        let same : ctrl_base + (a - ctrl_base) ≡ a = omega arith in
        rw (sym same) (
          last_written-put (entries mux) (a - ctrl_base) h
            (names-is_table (entries mux) (a - ctrl_base) ok (ground arith)));
    below = λ offs l.
        last_written-put (entries mux) offs h (names-is_table (entries mux) offs ok (ground arith));
  },
)

-- The tables of mux.c.
abbrev pub tables : List (List ModulePinMux)
tables =
    uart0_pin_mux ∷ uart1_pin_mux ∷ uart2_pin_mux ∷ uart3_pin_mux ∷ uart4_pin_mux ∷ uart5_pin_mux
    ∷ mmc0_pin_mux ∷ mmc0_no_cd_pin_mux ∷ mmc0_pin_mux_sk_evm ∷ mmc1_pin_mux ∷ i2c0_pin_mux
    ∷ i2c1_pin_mux ∷ spi0_pin_mux ∷ gpio0_7_pin_mux ∷ rgmii1_pin_mux ∷ mii1_pin_mux ∷ nand_pin_mux
    ∷ []

abbrev IsTable : List ModulePinMux → Type 0
IsTable mux = is_table (entries mux) ≡ true

tables-IsTable : All IsTable tables
unfolding is_table entries names pin position
tables-IsTable = (
  refl,
  (
    refl,
    (
      refl,
      (
        refl,
        (
          refl,
          (
            refl,
            (
              refl,
              (refl, (refl, (refl, (refl, (refl, (refl, (refl, (refl, (refl, (refl, tt)))))))))),
            ),
          ),
        ),
      ),
    ),
  ),
)

-- `configure_module_pin_mux` returns on each of the 17 tables of the source. Then the register at
-- 0x44E00000 plus the offset of each pad of the table was last given the value that stands beside
-- the pad. These writes, one for each pad and in the order of the table, are all that it does on the
-- bus: every other address, below or above, keeps what it was last given.
pub tables-Configured :
    (h : Trace)
    → All
        (λ mux. (h' : Trace) × (configure_module_pin_mux mux h ≡ done tt h') × Configured mux h h')
        tables
tables-Configured h =
    All-map tables (λ mux ok. configure_module_pin_mux-Configured mux ok h) tables-IsTable

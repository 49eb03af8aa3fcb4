-- ===== src/Gdt/Laws.antt =====
-- The base that `gdt_install_tss` splits, and the table's layout.
use os_2024_operatingstress.Base.{
  ℕ, ◌+◌, ◌*◌, ◌^◌, ◌<◌, ◌≡◌, refl, sym, ◌≢◌, List, arith, some, get_elem?, length,
  get_elem?-set_self, get_elem?-set_ne, get_elem?-some,
}
use os_2024_operatingstress.Gdt.{SegmentDescriptor, install_base, gdt_install_tss}

-- The base address that a descriptor stands for.
abbrev pub base_of : SegmentDescriptor → ℕ
base_of d = d.base_low + 2 ^ 16 * d.base_mid + 2 ^ 24 * d.base_high

-- With a 32-bit address and 32 descriptors, after `gdt_install_tss` the descriptor at index 5 has
-- the TSS's address for its base, with its type, privilege and low limit as before, and all other
-- descriptors are unchanged.
pub gdt_install_tss_lem :
    (base : ℕ) (table : List SegmentDescriptor)
    → base < 2 ^ 32
    → length table ≡ 32
    → (old new : SegmentDescriptor) × (get_elem? table 5 ≡ some old)
      × (get_elem? (gdt_install_tss base table) 5 ≡ some new)
      × (base_of new ≡ base)
      × (new.type_bit ≡ old.type_bit)
      × (new.dpl ≡ old.dpl)
      × (new.segment_low ≡ old.segment_low)
      × ((j : ℕ) → j ≢ 5 → get_elem? (gdt_install_tss base table) j ≡ get_elem? table j)
unfolding gdt_install_tss install_base
gdt_install_tss_lem base table h n =
    let found = get_elem?-some table 5 (omega arith) in
    let new : SegmentDescriptor = install_base base found.0 in
    (
      found.0,
      new,
      found.1,
      rw (found.1, gdt_install_tss) (get_elem?-set_self table 5 new (omega arith)),
      omega arith,
      refl,
      refl,
      refl,
      λ j p. rw (found.1, gdt_install_tss) (get_elem?-set_ne table 5 j new (λ e. p (sym e))),
    )

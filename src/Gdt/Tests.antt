-- ===== src/Gdt/Tests.antt =====
-- The theorem on the TSS descriptor at a concrete address.
use os_2024_operatingstress.Base.{ℕ, ◌≡◌, refl, ◌≢◌, some, arith, length, get_elem?}
use os_2024_operatingstress.Gdt.{SegmentDescriptor, global_descriptor_table, gdt_install_tss}
use os_2024_operatingstress.Gdt.Laws.{base_of, gdt_install_tss_lem}

table-length : length global_descriptor_table ≡ 32
unfolding global_descriptor_table
table-length = refl

gdt_install_tss_lem_example :
    (old new : SegmentDescriptor) × (get_elem? global_descriptor_table 5 ≡ some old)
    × (get_elem? (gdt_install_tss 0xC0123456 global_descriptor_table) 5 ≡ some new)
    × (base_of new ≡ 0xC0123456)
    × (new.type_bit ≡ old.type_bit)
    × (new.dpl ≡ old.dpl)
    × (new.segment_low ≡ old.segment_low)
    × ((j : ℕ)
        → j ≢ 5
        → get_elem? (gdt_install_tss 0xC0123456 global_descriptor_table) j
          ≡ get_elem? global_descriptor_table j)
gdt_install_tss_lem_example =
    gdt_install_tss_lem 0xC0123456 global_descriptor_table (omega arith) table-length

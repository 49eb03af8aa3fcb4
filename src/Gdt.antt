-- ===== src/Gdt.antt =====
-- src/gdt.c and header/cpu/gdt.h: the segment descriptors and the TSS descriptor's base.
pub mod Laws
mod Tests
use os_2024_operatingstress.Base.{
  ℕ, ◌+◌, ◌-◌, ◌*◌, ◌/◌, ◌%◌, ◌^◌, Option, none, some, List, [], ◌∷◌, ◌++◌, get_elem?, set,
  replicate,
}

pub record SegmentDescriptor : Type 0 where
  pub segment_low : ℕ
  pub base_low : ℕ
  pub base_mid : ℕ
  pub type_bit : ℕ
  pub non_system : ℕ
  pub dpl : ℕ
  pub present : ℕ
  pub limit : ℕ
  pub available : ℕ
  pub long_mode : ℕ
  pub default_size : ℕ
  pub granularity : ℕ
  pub base_high : ℕ

abbrev pub gdt_max_entry_count : ℕ
gdt_max_entry_count = 32

abbrev pub gdt_kernel_code_segment_selector : ℕ
gdt_kernel_code_segment_selector = 0x8

abbrev pub gdt_kernel_data_segment_selector : ℕ
gdt_kernel_data_segment_selector = 0x10

abbrev pub null_descriptor : SegmentDescriptor
null_descriptor = record {
  segment_low = 0;
  base_low = 0;
  base_mid = 0;
  type_bit = 0;
  non_system = 0;
  dpl = 0;
  present = 0;
  limit = 0;
  available = 0;
  long_mode = 0;
  default_size = 0;
  granularity = 0;
  base_high = 0;
}

-- The four descriptors of the kernel's and the user's code and data differ in type, privilege and
-- the bit `long_mode`.
abbrev pub flat_descriptor : ℕ → ℕ → ℕ → SegmentDescriptor
flat_descriptor type_bit dpl long_mode = record {
  segment_low = 0xFFFF;
  base_low = 0;
  base_mid = 0;
  type_bit = type_bit;
  non_system = 1;
  dpl = dpl;
  present = 1;
  limit = 0xF;
  available = 1;
  long_mode = long_mode;
  default_size = 1;
  granularity = 1;
  base_high = 0;
}

-- `sizeof(struct TSSEntry)`: 26 words.
abbrev pub tss_entry_size : ℕ
tss_entry_size = 104

abbrev pub tss_descriptor : SegmentDescriptor
tss_descriptor = record {
  segment_low = tss_entry_size;
  base_low = 0;
  base_mid = 0;
  type_bit = 0x9;
  non_system = 0;
  dpl = 0;
  present = 1;
  limit = tss_entry_size / 2 ^ 16 % 16;
  available = 0;
  long_mode = 0;
  default_size = 1;
  granularity = 0;
  base_high = 0;
}

unfoldable pub global_descriptor_table : List SegmentDescriptor
global_descriptor_table =
    null_descriptor
    ∷ flat_descriptor 0xA 0 1
    ∷ flat_descriptor 0x2 0 0
    ∷ flat_descriptor 0xA 3 1
    ∷ flat_descriptor 0x2 3 0
    ∷ tss_descriptor
    ∷ replicate 26 null_descriptor

-- The limit in `_gdt_gdtr`: 8 bytes for each descriptor, less one.
abbrev pub gdtr_size : ℕ
gdtr_size = 8 * gdt_max_entry_count - 1

-- The three parts of the address `base` that go into the descriptor.
unfoldable pub install_base : ℕ → SegmentDescriptor → SegmentDescriptor
install_base base d = record d {
  base_high = base / 2 ^ 24 % 2 ^ 8;
  base_mid = base / 2 ^ 16 % 2 ^ 8;
  base_low = base % 2 ^ 16;
}

-- `base` is the address of `_interrupt_tss_entry`.
unfoldable pub gdt_install_tss : ℕ → List SegmentDescriptor → List SegmentDescriptor
gdt_install_tss base table = elim (get_elem? table 5) [
  | none ↦ table
  | some d ↦ set table 5 (install_base base d)
]

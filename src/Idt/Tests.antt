-- ===== src/Idt/Tests.antt =====
-- The theorems on the interrupt gates at a concrete stub table.
use os_2024_operatingstress.Base.{ℕ, ◌≤◌, ◌≡◌, refl, ◌↔◌, some, List, arith, get_elem?, replicate}
use os_2024_operatingstress.Idt.{IdtGate, initialize_idt}
use os_2024_operatingstress.Idt.Laws.{handler_of, initialize_idt_lem, initialize_idt_outside}

-- 64 stubs, and a table that is all zero.
abbrev stubs : List ℕ
stubs = replicate 64 0xC0100010

abbrev zero_gates : List IdtGate
zero_gates = replicate 256 (record {
  offset_low = 0;
  segment = 0;
  reserved = 0;
  r_bit_1 = 0;
  r_bit_2 = 0;
  gate_32 = 0;
  r_bit_3 = 0;
  dpl = 0;
  valid_bit = 0;
  offset_high = 0;
})

initialize_idt_lem_example :
    (g : IdtGate) × (get_elem? (initialize_idt stubs zero_gates) 0x30 ≡ some g)
    × (handler_of g ≡ 0xC0100010)
    × (g.segment ≡ 0x8)
    × (g.valid_bit ≡ 1)
    × (g.gate_32 ≡ 1)
    × ((g.dpl ≡ 3) ↔ ((0x30 ≤ 0x30) × (0x30 ≤ 0x3F)))
initialize_idt_lem_example =
    initialize_idt_lem stubs 0x30 0xC0100010 zero_gates (omega arith) refl (omega arith) refl

initialize_idt_outside_example :
    get_elem? (initialize_idt stubs zero_gates) 64 ≡ get_elem? zero_gates 64
initialize_idt_outside_example =
    initialize_idt_outside stubs 64 zero_gates (omega arith) (omega arith)

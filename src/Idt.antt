-- ===== src/Idt.antt =====
-- src/idt.c and header/interrupt/idt.h: the interrupt descriptor table.
pub mod Laws
mod Tests
use os_2024_operatingstress.Base.{
  ℕ, zero, suc, ◌+◌, ◌*◌, ◌/◌, ◌%◌, ◌^◌, List, [], ◌∷◌, ltb, ◌||◌, if◌then◌else◌, set,
}
use os_2024_operatingstress.Gdt.{gdt_kernel_code_segment_selector}

pub record IdtGate : Type 0 where
  pub offset_low : ℕ
  pub segment : ℕ
  pub reserved : ℕ
  pub r_bit_1 : ℕ
  pub r_bit_2 : ℕ
  pub gate_32 : ℕ
  pub r_bit_3 : ℕ
  pub dpl : ℕ
  pub valid_bit : ℕ
  pub offset_high : ℕ

abbrev pub idt_max_entry_count : ℕ
idt_max_entry_count = 256

-- The limit in `_idt_idtr`: 8 bytes for each gate, less one.
abbrev pub idtr_limit : ℕ
idtr_limit = 2047

unfoldable pub interrupt_gate : ℕ → ℕ → ℕ → IdtGate
interrupt_gate handler_address gdt_seg_selector privilege = record {
  offset_low = handler_address % 2 ^ 16;
  segment = gdt_seg_selector % 2 ^ 16;
  reserved = 0;
  r_bit_1 = 0b000;
  r_bit_2 = 0b110;
  gate_32 = 1;
  r_bit_3 = 0;
  dpl = privilege % 4;
  valid_bit = 1;
  offset_high = handler_address / 2 ^ 16 % 2 ^ 16;
}

-- `int_vector` is a `uint8_t`, so the gate is in the table of 256.
unfoldable pub set_interrupt_gate : ℕ → ℕ → ℕ → ℕ → List IdtGate → List IdtGate
set_interrupt_gate int_vector handler_address gdt_seg_selector privilege idt =
    set idt (int_vector % 256) (interrupt_gate handler_address gdt_seg_selector privilege)

abbrev pub gate_privilege : ℕ → ℕ
gate_privilege i = if ltb i 0x30 || ltb 0x3F i then 0 else 0x3

-- The loop from vector `i` on; `handlers` are the addresses in `isr_stub_table` from there up to
-- the first null one.
pub initialize_gates : ℕ → List ℕ → List IdtGate → List IdtGate
initialize_gates i [] idt = idt
initialize_gates i (h ∷ handlers) idt =
    initialize_gates (i + 1) handlers
      (set_interrupt_gate i h gdt_kernel_code_segment_selector (gate_privilege i) idt)

unfoldable pub initialize_idt : List ℕ → List IdtGate → List IdtGate
initialize_idt isr_stub_table idt = initialize_gates 0 isr_stub_table idt

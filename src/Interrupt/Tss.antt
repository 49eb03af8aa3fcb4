-- ===== src/Interrupt/Tss.antt =====
-- The task state segment of src/interrupt.c and header/interrupt/interrupt.h.
use os_2024_operatingstress.Base.{ℕ, ◌+◌, ◌%◌, ◌^◌, List, replicate}
use os_2024_operatingstress.Gdt.{gdt_kernel_data_segment_selector}

-- `struct TSSEntry`
pub record TssEntry : Type 0 where
  pub prev_tss : ℕ
  pub esp0 : ℕ
  pub ss0 : ℕ
  pub unused_register : List ℕ

-- `_interrupt_tss_entry`
abbrev pub interrupt_tss_entry : TssEntry
interrupt_tss_entry = record {
  prev_tss = 0;
  esp0 = 0;
  ss0 = gdt_kernel_data_segment_selector;
  unused_register = replicate 23 0;
}

-- `ebp` is what the register holds.
unfoldable pub set_tss_kernel_current_stack : ℕ → TssEntry → TssEntry
set_tss_kernel_current_stack ebp tss = record tss { esp0 = (ebp + 8) % 2 ^ 32 }

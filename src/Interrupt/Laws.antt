-- ===== src/Interrupt/Laws.antt =====
-- The dispatch of src/interrupt.c, and what system calls leave alone.
use os_2024_operatingstress.Base.{
  ℕ, ◌≡◌, refl, ◌≢◌, inl, inr, false, ◌||◌, none, some, List, [], ◌∷◌, arith, ℤ, ltb, Bool-cases,
  Option-cases,
}
use os_2024_operatingstress.Keyboard.{
  KeyboardDriverState, keyboard_isr, is_keyboard_blocking, keyboard_state_activate,
}
use os_2024_operatingstress.Fat32.Driver.{DriverState, Reply, reply}
use os_2024_operatingstress.Fat32.Read.{read, read_directory}
use os_2024_operatingstress.Fat32.Read.Keeps.{read_directory_disk}
use os_2024_operatingstress.Fat32.Read.Laws.{read_disk}
use os_2024_operatingstress.Interrupt.{
  InterruptFrame, Kernel, Surroundings, load_request, answer, wait_input, read_line, syscall,
  main_interrupt_handler,
}

-- What `wait_input` returns is a keyboard that no longer blocks.
pub wait_input_done :
    (keys : List (ℕ × ℕ)) (k k' : KeyboardDriverState)
    → wait_input keys k ≡ some k'
    → is_keyboard_blocking k' ≡ false
unfolding wait_input
wait_input_done [] k k' h = ground arith
wait_input_done ((first, second) ∷ keys) k k' h = elim (Bool-cases (is_keyboard_blocking k)) [
  | inl on ↦ elim (Option-cases (keyboard_isr first second k)) [
    | inl e ↦ ground (arith, on, e)
    | inr p ↦ wait_input_done keys p.0 k' (ground (arith, on, p.1))
  ]
  | inr off ↦ ground (arith, off)
]

answer_disk :
    (p : ℕ) (rep : Reply) (k k' : Kernel)
    → ((code : ℤ) (s : DriverState) → rep ≡ reply code s → s.disk ≡ k.fs.disk)
    → answer p rep k ≡ some k'
    → k'.fs.disk ≡ k.fs.disk
unfolding answer
answer_disk p none k k' h run = cc
answer_disk p (some (code, s)) k k' h run = ground (arith, h code s refl)

read_line_disk :
    (frame : InterruptFrame) (around : Surroundings) (k k' : Kernel)
    → read_line frame around k ≡ some k'
    → k'.fs.disk ≡ k.fs.disk
unfolding read_line
read_line_disk frame around k k' run =
    elim (Option-cases (wait_input around.keys (keyboard_state_activate k.keyboard))) [
      | inl e ↦ ground (arith, e)
      | inr p ↦ ground (arith, p.1)
    ]

-- Only the calls of `write` and `delete` can change the disk: after any other system call that
-- returns, it is as it was.
pub syscall_keeps_disk :
    (frame : InterruptFrame) (around : Surroundings) (k k' : Kernel)
    → frame.eax ≢ 2
    → frame.eax ≢ 3
    → syscall frame around k ≡ some k'
    → k'.fs.disk ≡ k.fs.disk
unfolding syscall
syscall_keeps_disk frame around k k' n2 n3 run =
    let request = load_request frame.ebx k.fs in
    ground (
      arith,
      answer_disk frame.ecx (read request k.fs) k k'
          (λ code s h. (read_disk request k.fs s code h).0),
      answer_disk frame.ecx (read_directory request k.fs) k k'
          (λ code s h. (read_directory_disk request k.fs s code h).0),
      read_line_disk frame around k k',
    )

-- An exception halts the machine and changes nothing else; so does no vector but the keyboard's
-- and the system call's.
pub interrupt_dispatch :
    (frame : InterruptFrame) (first second : ℕ) (around : Surroundings) (k : Kernel)
    → frame.int_number ≢ 0x21
    → frame.int_number ≢ 0x30
    → main_interrupt_handler frame first second around k
      ≡ some (record k { halted = ltb frame.int_number 32 || k.halted })
unfolding main_interrupt_handler
interrupt_dispatch frame first second around k h1 h2 = ground arith

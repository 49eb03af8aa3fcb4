-- ===== src/Idt/Laws.antt =====
-- The gates that `initialize_idt` leaves in the table.
use os_2024_operatingstress.Base.{
  ℕ, zero, suc, ◌+◌, ◌*◌, ◌%◌, ◌^◌, ◌≤◌, ◌<◌, ◌≡◌, refl, List, [], ◌∷◌, arith, some, get_elem?,
  length, ◌∙◌, length-set, get_elem?-set_self, get_elem?-set_ne, ◌⊎◌, inr, ◌↔◌,
}
use os_2024_operatingstress.Idt.{
  IdtGate, interrupt_gate, set_interrupt_gate, gate_privilege, initialize_gates, initialize_idt,
}

-- The address that a gate leads to.
abbrev pub handler_of : IdtGate → ℕ
handler_of g = g.offset_low + 2 ^ 16 * g.offset_high

gates_outside :
    (handlers : List ℕ) (i j : ℕ) (idt : List IdtGate)
    → i + length handlers ≤ 256
    → (j < i) ⊎ (i + length handlers ≤ j)
    → get_elem? (initialize_gates i handlers idt) j ≡ get_elem? idt j
unfolding initialize_gates set_interrupt_gate
gates_outside [] i j idt n h = refl
gates_outside (x ∷ xs) i j idt n h =
    gates_outside xs (i + 1) j _ (omega arith) (ground arith)
    ∙ get_elem?-set_ne idt (i % 256) j _ (omega arith)

gates_inside :
    (handlers : List ℕ) (i k j h : ℕ) (idt : List IdtGate)
    → i + length handlers ≤ 256
    → length idt ≡ 256
    → get_elem? handlers k ≡ some h
    → j ≡ i + k
    → get_elem? (initialize_gates i handlers idt) j ≡ some (interrupt_gate h 0x8 (gate_privilege j))
unfolding initialize_gates set_interrupt_gate
gates_inside [] i k j h idt n m e p = cc
gates_inside (x ∷ xs) i zero j h idt n m e p =
    let here : j ≡ i = omega arith in
    let vector : i % 256 ≡ i = omega arith in
    let same : x ≡ h = cc in
    rw (here, gates_outside xs (i + 1) i _ (omega arith) (omega arith), vector, same)
      (get_elem?-set_self idt i (interrupt_gate h 0x8 (gate_privilege i)) (omega arith))
gates_inside (x ∷ xs) i (suc k) j h idt n m e p =
    gates_inside xs (i + 1) k j h _ (omega arith)
      (length-set idt (i % 256) (interrupt_gate x 0x8 (gate_privilege i)) ∙ m) e (omega arith)

-- With at most 256 handlers in the stub table and 256 gates, for a 32-bit handler address, vector
-- `j` gets a valid 32-bit gate to handler `j` in the kernel's code segment, and user code may raise
-- it exactly if `j` is from 0x30 to 0x3F.
pub initialize_idt_lem :
    (handlers : List ℕ) (j h : ℕ) (idt : List IdtGate)
    → length handlers ≤ 256
    → length idt ≡ 256
    → h < 2 ^ 32
    → get_elem? handlers j ≡ some h
    → (g : IdtGate) × (get_elem? (initialize_idt handlers idt) j ≡ some g)
      × (handler_of g ≡ h)
      × (g.segment ≡ 0x8)
      × (g.valid_bit ≡ 1)
      × (g.gate_32 ≡ 1)
      × ((g.dpl ≡ 3) ↔ ((0x30 ≤ j) × (j ≤ 0x3F)))
unfolding initialize_idt interrupt_gate
initialize_idt_lem handlers j h idt n m b e = (
  interrupt_gate h 0x8 (gate_privilege j),
  gates_inside handlers 0 j j h idt (omega arith) m e (omega arith),
  omega arith,
  refl,
  refl,
  refl,
  (λ p. ground arith, λ p. ground arith),
)

-- Vectors without a handler keep their gates.
pub initialize_idt_outside :
    (handlers : List ℕ) (j : ℕ) (idt : List IdtGate)
    → length handlers ≤ 256
    → length handlers ≤ j
    → get_elem? (initialize_idt handlers idt) j ≡ get_elem? idt j
unfolding initialize_idt
initialize_idt_outside handlers j idt n h =
    gates_outside handlers 0 j idt (omega arith) (inr (omega arith))

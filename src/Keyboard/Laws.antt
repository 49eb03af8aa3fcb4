-- ===== src/Keyboard/Laws.antt =====
-- The keyboard driver: what typing leaves in the buffer, and where it goes out of bounds.
use os_2024_operatingstress.Base.{
  ℕ, zero, suc, ltb, ltb→lt, Bool-cases, ◌+◌, ◌-◌, ◌≤◌, ◌<◌, ◌≡◌, refl, ap, ◌∙◌, subst, ◌≢◌, ◌↔◌,
  inl, inr, false, ◌&&◌, Option, none, some, List, [], ◌∷◌, ◌++◌, map, arith, leb, if◌then◌else◌,
  ◌>>=◌, length, get_elem?, set, take, length-set, get_elem?-set_self, All, take-set_self,
  take-set_ge,
}
use native.Mathlib.Numerals.{add-one}
use mathlib.Core.List.{append-nil, append_assoc}
use os_2024_operatingstress.Keyboard.{
  KeyboardDriverState, keyboard_state_activate, keyboard_state_deactivate, is_keyboard_blocking,
  put_char, lower, drop_char, backspace, enter, regular, handle_char, show_char, close_line,
}
use os_2024_operatingstress.Keyboard.Layout.{
  keyboard_scancode_1_to_ascii_map, keyboard_scancode_1_to_ascii_capslock,
}

-- The buffer has its 256 bytes.
pub record IsKeyboard (k : KeyboardDriverState) : Type 0 where
  pub size : length k.keyboard_buffer ≡ 256
  pub index : k.buffer_index ≤ 256

lower-pos : (i : ℕ) → 0 < i → lower i ≡ some (i - 1)
unfolding lower
lower-pos zero h = elim h [ ]
lower-pos (suc i) h = ap some (omega arith)

-- Backspace does not lower an index of 0.
drop_char-runs : (k : KeyboardDriverState) → drop_char k ≢ none
drop_char-runs k h = elim (Bool-cases (ltb 0 k.buffer_index)) [
  | inl e ↦ let l = lower-pos k.buffer_index (ltb→lt _ _ e) in let q = rw (e, l) at h in cc
  | inr e ↦ let q = rw e at h in cc
]

backspace-runs : (k : KeyboardDriverState) → backspace k ≢ none
unfolding backspace
backspace-runs k h = drop_char-runs _ h

-- With a buffer of 256 bytes and an index up to 256, handling a character faults exactly if it is
-- stored and the index is 256.
pub handle_char_fault :
    (c : ℕ) (k : KeyboardDriverState)
    → IsKeyboard k
    → (handle_char c k ≡ none) ↔ ((c ≢ 0) × (c ≢ 8) × (k.buffer_index ≡ 256))
unfolding handle_char enter regular put_char
handle_char_fault c k v =
    let b = backspace-runs k in (λ h. ground (arith, b), λ h. ground (arith, b))

-- A key that prints: neither a dead key, nor backspace, nor enter.
abbrev pub Prints : ℕ → Type 0
Prints c = (c ≢ 0) × (c ≢ 8) × (c ≢ 10)

regular_lem :
    (c : ℕ) (k : KeyboardDriverState)
    → Prints c
    → length k.keyboard_buffer ≡ 256
    → k.buffer_index < 256
    → (k' : KeyboardDriverState) × (handle_char c k ≡ some k')
      × (k'.keyboard_buffer ≡ set k.keyboard_buffer k.buffer_index c)
      × (k'.buffer_index ≡ k.buffer_index + 1)
unfolding handle_char regular put_char show_char
regular_lem c k h n lt = (
  show_char c (record k { keyboard_buffer = set k.keyboard_buffer k.buffer_index c }),
  ground arith,
  refl,
  refl,
)

enter_lem :
    (k : KeyboardDriverState)
    → length k.keyboard_buffer ≡ 256
    → k.buffer_index < 256
    → (k' : KeyboardDriverState) × (handle_char 10 k ≡ some k')
      × (k'.keyboard_buffer ≡ set k.keyboard_buffer k.buffer_index 0)
      × (k'.keyboard_input_on ≡ false)
unfolding handle_char enter put_char close_line keyboard_state_deactivate
enter_lem k n lt = (
  close_line (record k {
    row = k.row + 1;
    col_recent = k.col;
    col = 0;
    keyboard_buffer = set k.keyboard_buffer k.buffer_index 0;
  }),
  ground arith,
  refl,
  refl,
)

-- The keys of a text, one after the other, without Caps Lock between them.
pub type_keys : List ℕ → KeyboardDriverState → Option KeyboardDriverState
type_keys [] k = some k
type_keys (c ∷ cs) k = handle_char c k >>= λ k'. type_keys cs k'

type_line :
    (cs : List ℕ) (k : KeyboardDriverState) (done : List ℕ)
    → All Prints cs
    → length k.keyboard_buffer ≡ 256
    → take k.buffer_index k.keyboard_buffer ≡ done
    → k.buffer_index + length cs < 256
    → (k' : KeyboardDriverState) × (type_keys (cs ++ 10 ∷ []) k ≡ some k')
      × (take (k.buffer_index + length cs) k'.keyboard_buffer ≡ done ++ cs)
      × (get_elem? k'.keyboard_buffer (k.buffer_index + length cs) ≡ some 0)
      × (k'.keyboard_input_on ≡ false)
unfolding type_keys
type_line [] k done h n t lt =
    let (k', run, buffer, off) = enter_lem k n (omega arith) in
    let end : k.buffer_index + 0 ≡ k.buffer_index = omega arith in
    (
      k',
      rw run,
      rw (end, buffer, append-nil)
          (take-set_ge k.keyboard_buffer k.buffer_index k.buffer_index 0 (omega arith) ∙ t),
      rw (end, buffer) (get_elem?-set_self k.keyboard_buffer k.buffer_index 0 (omega arith)),
      off,
    )
type_line (c ∷ cs) k done h n t lt =
    let (k1, run, buffer, index) = regular_lem c k h.0 n (omega arith) in
    let grown : take k1.buffer_index k1.keyboard_buffer ≡ done ++ c ∷ [] =
      rw (
        index,
        buffer,
        add-one,
        take-set_self k.keyboard_buffer k.buffer_index c (omega arith),
        t,
      ) in
    let (k2, rest, front, last, off) =
      type_line cs k1 (done ++ c ∷ []) h.1
        (ap length buffer ∙ (length-set k.keyboard_buffer k.buffer_index c ∙ n)) grown
        (omega (arith, index)) in
    let count : k.buffer_index + suc (length cs) ≡ k1.buffer_index + length cs =
      omega (arith, index) in
    (k2, rw run rest, rw count (front ∙ append_assoc done (c ∷ []) cs), rw count last, off)

-- A line of up to 255 printing keys and Enter, typed after activation, ends the input and stands
-- in the buffer, with a zero byte behind it; no key faults.
pub typed_line :
    (cs : List ℕ) (k : KeyboardDriverState)
    → All Prints cs
    → length cs < 256
    → (k' : KeyboardDriverState) × (type_keys (cs ++ 10 ∷ []) (keyboard_state_activate k) ≡ some k')
      × (take (length cs) k'.keyboard_buffer ≡ cs)
      × (get_elem? k'.keyboard_buffer (length cs) ≡ some 0)
      × (is_keyboard_blocking k' ≡ false)
unfolding keyboard_state_activate is_keyboard_blocking
typed_line cs k h lt =
    let (k', run, front, last, off) =
      type_line cs (keyboard_state_activate k) [] h refl refl (omega arith) in
    let start : 0 + length cs ≡ length cs = omega arith in
    (
      k',
      run,
      subst (λ n. take n k'.keyboard_buffer ≡ cs) start front,
      subst (λ n. get_elem? k'.keyboard_buffer n ≡ some 0) start last,
      off,
    )

abbrev pub upper : ℕ → ℕ
upper c = if leb 97 c && leb c 122 then c - 32 else c

-- The Caps Lock table is the plain table with its small letters made capital.
pub capslock-upper :
    keyboard_scancode_1_to_ascii_capslock ≡ map upper keyboard_scancode_1_to_ascii_map
capslock-upper = refl

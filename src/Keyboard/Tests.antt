-- ===== src/Keyboard/Tests.antt =====
-- The theorems on the keyboard driver at concrete inputs.
use os_2024_operatingstress.Base.{
  ℕ, ◌≤◌, ◌≡◌, refl, ◌≢◌, ◌↔◌, true, false, none, some, [], ◌∷◌, arith, get_elem?, take, replicate,
}
use os_2024_operatingstress.Keyboard.{
  KeyboardDriverState, keyboard_state_activate, is_keyboard_blocking, handle_char,
}
use os_2024_operatingstress.Keyboard.Laws.{IsKeyboard, type_keys, typed_line, handle_char_fault}

-- The state at start-up, with a blank screen and `index` characters typed.
abbrev typed : ℕ → KeyboardDriverState
typed index = record {
  keyboard_input_on = false;
  keyboard_buffer = replicate 256 0;
  buffer_index = index;
  is_capslock = false;
  col = 0;
  row = 0;
  col_recent = 0;
  col_bound = 0;
  screen = λ a. 0;
  outs = [];
}

typed-IsKeyboard : (index : ℕ) → index ≤ 256 → IsKeyboard (typed index)
typed-IsKeyboard index h = record { size = refl; index = h }

typed_line_example :
    (k' : KeyboardDriverState) × (type_keys
        (108 ∷ 115 ∷ 10 ∷ [])
        (keyboard_state_activate (typed 0))
      ≡ some k')
    × (take 2 k'.keyboard_buffer ≡ 108 ∷ 115 ∷ [])
    × (get_elem? k'.keyboard_buffer 2 ≡ some 0)
    × (is_keyboard_blocking k' ≡ false)
typed_line_example = typed_line (108 ∷ 115 ∷ []) (typed 0) (ground arith) (omega arith)

handle_char_fault_example :
    (handle_char 97 (typed 256) ≡ none)
    ↔ (◌≢◌ {A = ℕ} 97 0 × ◌≢◌ {A = ℕ} 97 8 × ◌≡◌ {A = ℕ} 256 256)
handle_char_fault_example = handle_char_fault 97 (typed 256) (typed-IsKeyboard 256 (omega arith))

-- The state after Caps Lock.
abbrev after_capslock : KeyboardDriverState
after_capslock = record (typed 7) { is_capslock = true; outs = (0x20, 0x20) ∷ [] }

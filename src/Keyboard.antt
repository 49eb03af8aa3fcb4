-- ===== src/Keyboard.antt =====
-- src/keyboard.c and header/driver/keyboard.h: the keyboard driver with the cursor on the screen.
pub mod Layout
pub mod Laws
mod Tests
use os_2024_operatingstress.Base.{
  ℕ, zero, suc, ◌+◌, ◌-◌, ◌*◌, ◌/◌, ◌%◌, ◌^◌, Bool, true, false, not, ◌&&◌, Option, none, some,
  List, [], ◌∷◌, ◌++◌, ltb, leb, ◌==◌, if◌then◌else◌, get_or, get_elem?, set, length, replicate,
  take, ◌>>=◌,
}
use os_2024_operatingstress.Strings.{Memory}
use os_2024_operatingstress.Framebuffer.{Out, framebuffer_write, framebuffer_set_cursor}
use os_2024_operatingstress.Keyboard.Layout.{
  keyboard_scancode_1_to_ascii_map, keyboard_scancode_1_to_ascii_capslock,
}
use os_2024_operatingstress.Interrupt.Pic.{pic_ack}

abbrev pub keyboard_buffer_size : ℕ
keyboard_buffer_size = 256

-- `keyboard_state` with the module's variables, the screen and the bytes sent to ports so far.
-- The counters are `int`s that the code keeps at 0 or more.
pub record KeyboardDriverState : Type 0 where
  pub keyboard_input_on : Bool
  pub keyboard_buffer : List ℕ
  pub buffer_index : ℕ
  pub is_capslock : Bool
  pub col : ℕ
  pub row : ℕ
  pub col_recent : ℕ
  pub col_bound : ℕ
  pub screen : Memory
  pub outs : List Out

abbrev pub send : List Out → KeyboardDriverState → KeyboardDriverState
send os k = record k { outs = k.outs ++ os }

abbrev pub draw : ℕ → ℕ → ℕ → ℕ → KeyboardDriverState → KeyboardDriverState
draw row col c fg k = record k { screen = framebuffer_write row col c fg 0 k.screen }

abbrev pub set_cursor : ℕ → ℕ → KeyboardDriverState → KeyboardDriverState
set_cursor r c k = send (framebuffer_set_cursor r c) k

unfoldable pub keyboard_state_activate : KeyboardDriverState → KeyboardDriverState
keyboard_state_activate k = record k {
  keyboard_input_on = true;
  buffer_index = 0;
  keyboard_buffer = replicate keyboard_buffer_size 0;
}

unfoldable pub keyboard_state_deactivate : KeyboardDriverState → KeyboardDriverState
keyboard_state_deactivate k = record k { keyboard_input_on = false }

-- The 120 bytes that are copied to the caller.
unfoldable pub get_keyboard_buffer : KeyboardDriverState → List ℕ
get_keyboard_buffer k = take 120 k.keyboard_buffer

unfoldable pub is_keyboard_blocking : KeyboardDriverState → Bool
is_keyboard_blocking k = k.keyboard_input_on

unfoldable pub get_scancode_to_ascii_map : Bool → List ℕ
get_scancode_to_ascii_map is_capslock =
    if is_capslock then keyboard_scancode_1_to_ascii_capslock else keyboard_scancode_1_to_ascii_map

-- `keyboard_buffer[buffer_index] = c`, a fault outside the array.
unfoldable pub put_char : ℕ → KeyboardDriverState → Option KeyboardDriverState
put_char c k =
    if ltb k.buffer_index (length k.keyboard_buffer)
    then some (record k { keyboard_buffer = set k.keyboard_buffer k.buffer_index c })
    else none

-- `buffer_index--`; an index below 0 is a fault.
unfoldable pub lower : ℕ → Option ℕ
lower zero = none
lower (suc i) = some i

abbrev pub drop_char : KeyboardDriverState → Option KeyboardDriverState
drop_char k =
    if ltb 0 k.buffer_index
    then (lower k.buffer_index >>= λ i. some (record k { buffer_index = i }))
    else some k

unfoldable pub backspace : KeyboardDriverState → Option KeyboardDriverState
backspace k = drop_char (
    if ltb 0 k.col
    then (if ltb k.col_bound k.col && not (k.buffer_index == 0)
        then set_cursor k.row (k.col - 1)
            (draw k.row (k.col - 1) 32 0xF (record k { col = k.col - 1 }))
        else k)
    else if k.col == 0 && ltb 0 k.row
    then set_cursor (k.row - 1) k.col_recent
        (draw (k.row - 1) k.col_recent 32 0xF (record k { row = k.row - 1; col = k.col_recent }))
    else k)

-- What Enter does once the text is closed by a zero byte.
unfoldable pub close_line : KeyboardDriverState → KeyboardDriverState
close_line k =
    keyboard_state_deactivate (set_cursor k.row k.col_bound (record k { buffer_index = 0 }))

unfoldable pub enter : KeyboardDriverState → Option KeyboardDriverState
unfolding put_char
enter k = put_char 0 (record k { row = k.row + 1; col_recent = k.col; col = 0 }) >>= λ k'.
    some (close_line k')

-- What a regular character does once it is stored: it is drawn, with a blank behind it.
unfoldable pub show_char : ℕ → KeyboardDriverState → KeyboardDriverState
show_char c k = set_cursor k.row (k.col + 1) (
    draw k.row (k.col + 1) 32 0xF
      (draw k.row k.col c 0xF (record k { buffer_index = k.buffer_index + 1; col = k.col + 1 })))

unfoldable pub regular : ℕ → KeyboardDriverState → Option KeyboardDriverState
unfolding put_char
regular c k = put_char c k >>= λ k'. some (show_char c k')

-- The character of a key, when input is on.
unfoldable pub handle_char : ℕ → KeyboardDriverState → Option KeyboardDriverState
handle_char c k =
    if c == 0
    then some k
    else if c == 8
    then backspace k
    else if c == 10
    then enter k
    else regular c k

-- `first` and `second` are the two bytes read from port 0x60: the second only if input is on.
unfoldable pub keyboard_isr : ℕ → ℕ → KeyboardDriverState → Option KeyboardDriverState
keyboard_isr first second k =
    if first == 0x3A
    then some (send (pic_ack 1) (record k { is_capslock = not k.is_capslock }))
    else if not k.keyboard_input_on
    then some (send (pic_ack 1) (record k { buffer_index = 0 }))
    else handle_char (get_or (get_scancode_to_ascii_map k.is_capslock) second 0) k >>= λ k'.
        some (send (pic_ack 1) k')

-- One round of the loop of `puts` at index `i`; `len` is the whole length.
unfoldable pub puts_char : ℕ → ℕ → ℕ → ℕ → KeyboardDriverState → KeyboardDriverState
puts_char len color i c k =
    let cleared : KeyboardDriverState =
      set_cursor k.row (k.col + i + 1) (draw k.row (k.col + i + 1) 32 0xF k) in
    let drawn : KeyboardDriverState = draw k.row (k.col + i) c color cleared in
    let k' : KeyboardDriverState =
      if c == 10
      then set_cursor (k.row + 1) 0 (record cleared { row = k.row + 1; col = 0 })
      else if i == len - 1
      then record drawn { col = k.col + len }
      else drawn in
    record k' { col_bound = k'.col }

-- `i` is a `uint8_t`: for more than 255 characters the source never leaves the loop, so the list of
-- characters is at most that long.
pub puts_loop : ℕ → ℕ → ℕ → List ℕ → KeyboardDriverState → KeyboardDriverState
puts_loop len color i [] k = k
puts_loop len color i (c ∷ cs) k = puts_loop len color (i + 1) cs (puts_char len color i c k)

unfoldable pub puts : List ℕ → ℕ → KeyboardDriverState → Option KeyboardDriverState
puts buf color k =
    if ltb (length buf) 256 then some (puts_loop (length buf) color 0 buf k) else none

unfoldable pub set_cursor_cls : KeyboardDriverState → KeyboardDriverState
set_cursor_cls k = record k { row = 0; col = k.col_bound }

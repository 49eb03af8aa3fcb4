-- ===== src/Interrupt.antt =====
-- `main_interrupt_handler` and `syscall` of src/interrupt.c with the frame of
-- header/interrupt/interrupt.h: the drivers together, as user code and the hardware reach them.
-- The kernel's variables are a state of their own: that an address of a request or an answer, which
-- the code does not check, names one of them is not modelled.
pub mod Pic
pub mod Tss
pub mod Laws
pub mod Tests
use os_2024_operatingstress.Base.{
  ℕ, zero, suc, ◌+◌, ◌-◌, ◌*◌, ◌%◌, ◌^◌, Bool, true, false, Option, none, some, List, [], ◌∷◌, ◌++◌,
  ltb, ◌==◌, if◌then◌else◌, take, drop, ℤ, pos, negsuc, ◌>>=◌,
}
use os_2024_operatingstress.Strings.{store}
use os_2024_operatingstress.Framebuffer.{framebuffer_clear}
use os_2024_operatingstress.Keyboard.{
  KeyboardDriverState, keyboard_state_activate, keyboard_isr, is_keyboard_blocking,
  get_keyboard_buffer, puts, set_cursor_cls, keyboard_buffer_size,
}
use os_2024_operatingstress.Fat32.Types.{DriverRequest}
use os_2024_operatingstress.Fat32.Codec.{get_u32}
use os_2024_operatingstress.Fat32.Driver.{DriverState, Reply, store_bytes, load_bytes}
use os_2024_operatingstress.Fat32.Read.{read, read_directory}
use os_2024_operatingstress.Fat32.Write.{write}
use os_2024_operatingstress.Fat32.Delete.{delete}

-- The general registers and the vector of a `struct InterruptFrame`; the handlers read no other
-- part.
pub record InterruptFrame : Type 0 where
  pub ebx : ℕ
  pub edx : ℕ
  pub ecx : ℕ
  pub eax : ℕ
  pub int_number : ℕ

-- `halted` is set by the instruction `hlt`.
pub record Kernel : Type 0 where
  pub fs : DriverState
  pub keyboard : KeyboardDriverState
  pub halted : Bool

-- What happens while a handler runs: the byte pairs that the keyboard interrupts read, in order,
-- and the 136 bytes of the kernel's stack that `buffer` has behind the bytes copied into it.
pub record Surroundings : Type 0 where
  pub keys : List (ℕ × ℕ)
  pub stack : List ℕ

-- The packed `struct FAT32DriverRequest` at an address: 23 bytes.
unfoldable pub load_request : ℕ → DriverState → DriverRequest
load_request p s =
    let bs : List ℕ = load_bytes s.memory p 23 in
    record {
      buf = get_u32 bs 0;
      name = take 8 (drop 4 bs);
      ext = take 3 (drop 12 bs);
      parent_cluster_number = get_u32 bs 15;
      buffer_size = get_u32 bs 19;
    }

-- The byte of an `int8_t`.
abbrev pub int8 : ℤ → ℕ
int8 (pos n) = n % 256
int8 (negsuc n) = 255 - n % 256

-- `*((int8_t *) p) = operation(…)`
unfoldable pub answer : ℕ → Reply → Kernel → Option Kernel
answer p reply k =
    reply >>= λ r. some (record k { fs = record (r.1) { memory = store r.1.memory p (int8 r.0) } })

-- `while (is_keyboard_blocking());` with the interrupts that come meanwhile. `none` if the keys end
-- first, or one of them faults.
pub wait_input : List (ℕ × ℕ) → KeyboardDriverState → Option KeyboardDriverState
wait_input [] k = if is_keyboard_blocking k then none else some k
wait_input ((first, second) ∷ keys) k = elim (is_keyboard_blocking k) [
  | true ↦ keyboard_isr first second k >>= λ k'. wait_input keys k'
  | false ↦ some k
]

-- System call 4: a line of input, copied to `ebx` with all 256 bytes of the local buffer.
unfoldable pub read_line : InterruptFrame → Surroundings → Kernel → Option Kernel
read_line frame around k =
    wait_input around.keys (keyboard_state_activate k.keyboard) >>= λ keyboard. some (record k {
      keyboard = keyboard;
      fs = record (k.fs) {
        memory =
            store_bytes k.fs.memory frame.ebx
              (get_keyboard_buffer keyboard ++ take 136 around.stack);
      };
    })

-- `!memcmp(&str, "\0", 1)` holds for the zero byte only, and `sizeof(str)` is 1.
unfoldable pub putchar : ℕ → ℕ → Kernel → Option Kernel
putchar str color k =
    if str == 0
    then (puts (str ∷ []) color k.keyboard >>= λ keyboard. some (record k { keyboard = keyboard }))
    else some k

unfoldable pub syscall : InterruptFrame → Surroundings → Kernel → Option Kernel
syscall frame around k =
    if frame.eax == 0
    then answer frame.ecx (read (load_request frame.ebx k.fs) k.fs) k
    else if frame.eax == 1
    then answer frame.ecx (read_directory (load_request frame.ebx k.fs) k.fs) k
    else if frame.eax == 2
    then answer frame.ecx (write (load_request frame.ebx k.fs) k.fs) k
    else if frame.eax == 3
    then answer frame.ecx (delete (load_request frame.ebx k.fs) k.fs) k
    else if frame.eax == 4
    then read_line frame around k
    else if frame.eax == 5
    then some (record k { keyboard = set_cursor_cls k.keyboard })
    else if frame.eax == 6
    then (puts (load_bytes k.fs.memory frame.ebx frame.ecx) frame.edx k.keyboard >>= λ keyboard.
        some (record k { keyboard = keyboard }))
    else if frame.eax == 7
    then some (record k { keyboard = keyboard_state_activate k.keyboard })
    else if frame.eax == 8
    then some (record k {
      keyboard =
          set_cursor_cls (record (k.keyboard) { screen = framebuffer_clear k.keyboard.screen });
    })
    else some k

-- An exception halts the machine; `first` and `second` are what the keyboard's port holds.
unfoldable pub main_interrupt_handler :
    InterruptFrame → ℕ → ℕ → Surroundings → Kernel → Option Kernel
main_interrupt_handler frame first second around k =
    if ltb frame.int_number 32
    then some (record k { halted = true })
    else if frame.int_number == 0x21
    then (keyboard_isr first second k.keyboard >>= λ keyboard.
        some (record k { keyboard = keyboard }))
    else if frame.int_number == 0x30
    then syscall frame around k
    else some k

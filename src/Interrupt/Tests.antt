-- ===== src/Interrupt/Tests.antt =====
-- The theorems on system calls at concrete inputs.
use os_2024_operatingstress.Base.{◌≡◌, refl, false, [], arith, replicate}
use os_2024_operatingstress.Keyboard.{KeyboardDriverState, is_keyboard_blocking, set_cursor_cls}
use os_2024_operatingstress.Fat32.Init.{zero_table}
use os_2024_operatingstress.Interrupt.{InterruptFrame, Kernel, Surroundings, wait_input, syscall}
use os_2024_operatingstress.Interrupt.Laws.{syscall_keeps_disk, wait_input_done}

abbrev pub keyboard : KeyboardDriverState
keyboard = record {
  keyboard_input_on = false;
  keyboard_buffer = replicate 256 0;
  buffer_index = 0;
  is_capslock = false;
  col = 5;
  row = 3;
  col_recent = 0;
  col_bound = 2;
  screen = λ a. 0;
  outs = [];
}

abbrev pub kernel : Kernel
kernel = record {
  fs = record {
    memory = λ a. 0;
    disk = λ b. replicate 512 0;
    fat_table = replicate 512 0;
    dir_table_buf = zero_table;
  };
  keyboard = keyboard;
  halted = false;
}

abbrev cursor_call : InterruptFrame
cursor_call = record { ebx = 0; edx = 0; ecx = 0; eax = 5; int_number = 0x30 }

abbrev nothing : Surroundings
nothing = record { keys = []; stack = replicate 136 0 }

abbrev after_call : Kernel
after_call = record kernel { keyboard = set_cursor_cls keyboard }

syscall_keeps_disk_example : after_call.fs.disk ≡ kernel.fs.disk
unfolding syscall
syscall_keeps_disk_example =
    syscall_keeps_disk cursor_call nothing kernel after_call (omega arith) (omega arith) refl

wait_input_done_example : is_keyboard_blocking keyboard ≡ false
unfolding wait_input is_keyboard_blocking
wait_input_done_example = wait_input_done [] keyboard keyboard refl

-- ===== src/Boot.antt =====
-- `kernel_setup` of src/kernel.c: the order in which the kernel's parts are brought up, before the
-- shell runs. `load_gdt`, `set_tss_register` and `kernel_execute_user_program` are machine
-- instructions that touch no state of the model.
pub mod Laws
pub mod First
mod Tests
use os_2024_operatingstress.Base.{ℕ, ◌+◌, Option, some, List, [], ◌∷◌, ◌++◌, replicate, ◌>>=◌}
use os_2024_operatingstress.Framebuffer.{framebuffer_clear, framebuffer_set_cursor}
use os_2024_operatingstress.Keyboard.{KeyboardDriverState, send}
use os_2024_operatingstress.Gdt.{SegmentDescriptor, gdt_install_tss}
use os_2024_operatingstress.Idt.{IdtGate, initialize_idt}
use os_2024_operatingstress.Paging.{
  PageDirectory, PageManagerState, paging_allocate_user_page_frame,
}
use os_2024_operatingstress.Fat32.Types.{DriverRequest, root_cluster_number}
use os_2024_operatingstress.Fat32.Driver.{DriverState, store_bytes}
use os_2024_operatingstress.Fat32.Init.{initialize_filesystem_fat32}
use os_2024_operatingstress.Fat32.Read.{read}
use os_2024_operatingstress.Fat32.Write.{write}
use os_2024_operatingstress.Interrupt.{Kernel}
use os_2024_operatingstress.Interrupt.Pic.{pic_remap, activate_keyboard_interrupt}
use os_2024_operatingstress.Interrupt.Tss.{TssEntry, set_tss_kernel_current_stack}

-- The kernel with the processor's tables.
pub record Machine : Type 0 where
  pub kernel : Kernel
  pub gdt : List SegmentDescriptor
  pub idt : List IdtGate
  pub page_directory : PageDirectory
  pub page_manager : PageManagerState
  pub tss_entry : TssEntry

-- What the code reads that is not C: the address of the TSS, the handlers of intsetup.s, the
-- interrupt mask that port 0x21 holds, where the local array `input` stands on the stack, and the
-- frame pointer.
pub record Environment : Type 0 where
  pub tss : ℕ
  pub isr_stub_table : List ℕ
  pub mask : ℕ
  pub input : ℕ
  pub ebp : ℕ

-- The program "shell", read to address 0.
abbrev pub shell_request : DriverRequest
shell_request = record {
  buf = 0;
  name = 115 ∷ 104 ∷ 101 ∷ 108 ∷ 108 ∷ 0 ∷ 0 ∷ 0 ∷ [];
  ext = 0 ∷ 0 ∷ 0 ∷ [];
  parent_cluster_number = root_cluster_number;
  buffer_size = 0x100000;
}

-- The 30 bytes of `input`.
abbrev pub input_bytes : List ℕ
input_bytes = replicate 10 97 ++ (replicate 19 99 ++ 0 ∷ [])

-- The file "ed3.txt".
abbrev pub text_request : ℕ → DriverRequest
text_request input = record {
  buf = input;
  name = 101 ∷ 100 ∷ 51 ∷ 0 ∷ 0 ∷ 0 ∷ 0 ∷ 0 ∷ [];
  ext = 116 ∷ 120 ∷ 116 ∷ [];
  parent_cluster_number = root_cluster_number;
  buffer_size = 30;
}

-- The two calls of the file system, whose answers are not looked at.
unfoldable pub setup_files : Environment → DriverState → Option DriverState
setup_files env s = read shell_request s >>= λ loaded.
    write (text_request env.input)
      (record (loaded.1) { memory = store_bytes loaded.1.memory env.input input_bytes })
    >>= λ written. some written.1

-- The screen is cleared, and the PIC and the cursor are set.
unfoldable pub setup_screen : Environment → KeyboardDriverState → KeyboardDriverState
setup_screen env k = send (framebuffer_set_cursor 0 0) (
    let k' : KeyboardDriverState = send (activate_keyboard_interrupt env.mask) (send pic_remap k) in
    record k' { screen = framebuffer_clear k'.screen })

unfoldable pub kernel_setup : Environment → Machine → Option Machine
kernel_setup env m = paging_allocate_user_page_frame m.page_directory 0 m.page_manager >>= λ paged.
    setup_files env (initialize_filesystem_fat32 m.kernel.fs) >>= λ fs. some (record m {
      kernel = record (m.kernel) { fs = fs; keyboard = setup_screen env m.kernel.keyboard };
      gdt = gdt_install_tss env.tss m.gdt;
      idt = initialize_idt env.isr_stub_table m.idt;
      page_directory = paged.1;
      page_manager = paged.2;
      tss_entry = set_tss_kernel_current_stack env.ebp m.tss_entry;
    })

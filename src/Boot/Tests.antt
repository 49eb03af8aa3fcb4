-- ===== src/Boot/Tests.antt =====
-- The theorems on the start of the kernel, at a blank disk.
use os_2024_operatingstress.Base.{
  ℕ, ◌<◌, ◌≡◌, refl, false, some, [], ◌∷◌, ◌++◌, get_elem?, replicate,
}
use os_2024_operatingstress.Disk.{read_blocks}
use os_2024_operatingstress.Strings.{memcmp}
use os_2024_operatingstress.Fat32.Driver.{same_bytes, read_table, read_fat, read_clusters}
use os_2024_operatingstress.Fat32.Init.{zero_entry, is_empty_storage}
use os_2024_operatingstress.Fat32.Init.Laws.{directory_entry}
use os_2024_operatingstress.Fat32.Tests.{blank-IsState}
use os_2024_operatingstress.Interrupt.Tss.{interrupt_tss_entry}
use os_2024_operatingstress.Interrupt.Tests.{kernel}
use os_2024_operatingstress.Paging.{page_manager_state, paging_kernel_page_directory}
use os_2024_operatingstress.Paging.Laws.{IsPaging}
use os_2024_operatingstress.Boot.{Machine, Environment, kernel_setup}
use os_2024_operatingstress.Boot.First.{IsFresh, text_entry, kernel_setup_first}

abbrev env : Environment
env = record {
  tss = 0xC0100000;
  isr_stub_table = replicate 64 0xC0101000;
  mask = 0xB8;
  input = 0xC0200000;
  ebp = 0xC0210000;
}

abbrev machine : Machine
machine = record {
  kernel = kernel;
  gdt = [];
  idt = [];
  page_directory = paging_kernel_page_directory;
  page_manager = page_manager_state;
  tss_entry = interrupt_tss_entry;
}

kernel-IsFresh : IsFresh kernel.fs
unfolding is_empty_storage same_bytes memcmp read_blocks
kernel-IsFresh = record { state = blank-IsState; unformatted = refl; zero_fat = refl }

machine-IsPaging : IsPaging paging_kernel_page_directory page_manager_state
unfolding paging_kernel_page_directory
machine-IsPaging = record { entries = refl; frames = refl }

kernel_setup_first_example :
    (m' : Machine) × (c : ℕ) × (kernel_setup env machine ≡ some m')
    × (is_empty_storage m'.kernel.fs.disk ≡ false)
    × (read_table m'.kernel.fs.disk 2
        ≡ directory_entry (82 ∷ 79 ∷ 79 ∷ 84 ∷ 0 ∷ 0 ∷ 0 ∷ 0 ∷ []) 2
          ∷ text_entry c
          ∷ replicate 62 zero_entry)
    × (c < 512)
    × (get_elem? (read_fat m'.kernel.fs.disk) c ≡ some 0x0FFFFFFF)
    × (read_clusters m'.kernel.fs.disk c
        ≡ (replicate 10 97 ++ (replicate 19 99 ++ 0 ∷ [])) ++ replicate 2018 0)
kernel_setup_first_example = kernel_setup_first env machine kernel-IsFresh machine-IsPaging refl

-- ===== src/Paging.antt =====
-- src/paging.c and header/memory/paging.h: page directories of 4 MiB pages and the page frames.
-- `flush_single_tlb` is the instruction `invlpg`, which no state of the model shows.
pub mod Laws
mod Tests
use os_2024_operatingstress.Base.{
  ℕ, zero, suc, ◌+◌, ◌-◌, ◌*◌, ◌/◌, ◌%◌, ◌^◌, Bool, true, false, Option, none, some, List, [], ◌∷◌,
  leb, ltb, if◌then◌else◌, get_elem?, set, replicate, length, ◌>>=◌,
}

-- The bits of `struct PageDirectoryEntryFlag`.
pub record PageDirectoryEntryFlag : Type 0 where
  pub present_bit : ℕ
  pub write_bit : ℕ
  pub user_supervisor_bit : ℕ
  pub write_through_bit : ℕ
  pub cache_disable_bit : ℕ
  pub accessed_bit : ℕ
  pub dirty_bit : ℕ
  pub use_pagesize_4_mb : ℕ

pub record PageDirectoryEntry : Type 0 where
  pub flag : PageDirectoryEntryFlag
  pub global_page : ℕ
  pub ignored : ℕ
  pub pat : ℕ
  pub higher_address : ℕ
  pub reserved : ℕ
  pub lower_address : ℕ

-- 1024 entries.
abbrev pub PageDirectory : Type 0
PageDirectory = List PageDirectoryEntry

abbrev pub page_entry_count : ℕ
page_entry_count = 1024

-- `(SYSTEM_MEMORY_MB << 20) / PAGE_FRAME_SIZE`
abbrev pub page_frame_max_count : ℕ
page_frame_max_count = 32

pub record PageManagerState : Type 0 where
  pub page_frame_map : List Bool
  pub free_page_frame_count : ℕ

abbrev pub flags : ℕ → ℕ → ℕ → ℕ → PageDirectoryEntryFlag
flags present write user big = record {
  present_bit = present;
  write_bit = write;
  user_supervisor_bit = user;
  write_through_bit = 0;
  cache_disable_bit = 0;
  accessed_bit = 0;
  dirty_bit = 0;
  use_pagesize_4_mb = big;
}

abbrev pub entry : PageDirectoryEntryFlag → ℕ → PageDirectoryEntry
entry flag lower_address = record {
  flag = flag;
  global_page = 0;
  ignored = 0;
  pat = 0;
  higher_address = 0;
  reserved = 0;
  lower_address = lower_address;
}

-- Entries 0 and 0x300 map the kernel's 4 MiB, all others are zero.
unfoldable pub paging_kernel_page_directory : PageDirectory
paging_kernel_page_directory =
    set (set (replicate page_entry_count (entry (flags 0 0 0 0) 0)) 0 (entry (flags 1 1 0 1) 0))
      0x300 (entry (flags 1 1 0 1) 0)

abbrev pub page_manager_state : PageManagerState
page_manager_state = record {
  page_frame_map = true ∷ replicate 31 false;
  free_page_frame_count = page_frame_max_count;
}

-- `((uint32_t) addr >> 22) & 0x3FF`
abbrev pub page_index : ℕ → ℕ
page_index addr = addr % 2 ^ 32 / 2 ^ 22 % 2 ^ 10

-- The index is below 1024, so the entry is there in a directory of full size.
unfoldable pub update_page_directory_entry :
    PageDirectory → ℕ → ℕ → PageDirectoryEntryFlag → PageDirectory
update_page_directory_entry page_dir physical_addr virtual_addr flag =
    elim (get_elem? page_dir (page_index virtual_addr)) [
      | none ↦ page_dir
      | some e ↦
          set page_dir (page_index virtual_addr)
            (record e { flag = flag; lower_address = page_index physical_addr })
    ]

unfoldable pub paging_allocate_check : PageManagerState → ℕ → Bool
paging_allocate_check m amount = leb amount m.free_page_frame_count

-- `page_frame_map[i] = b`, a fault outside the map.
unfoldable pub mark_frame : List Bool → ℕ → Bool → Option (List Bool)
mark_frame frames i b = if ltb i (length frames) then some (set frames i b) else none

-- `PAGE_FRAME_MAX_COUNT - free_page_frame_count` in `uint32_t`
abbrev pub used_count : ℕ → ℕ
used_count free = (page_frame_max_count + 2 ^ 32 - free) % 2 ^ 32

-- What the two operations leave: their answer, the directory and the frames; `none` is a fault.
abbrev pub Outcome : Type 0
Outcome = Option (Bool × PageDirectory × PageManagerState)

unfoldable pub paging_allocate_user_page_frame : PageDirectory → ℕ → PageManagerState → Outcome
paging_allocate_user_page_frame page_dir virtual_addr m =
    let physical_addr : ℕ = m.free_page_frame_count in
    if paging_allocate_check m physical_addr
    then (mark_frame m.page_frame_map (used_count m.free_page_frame_count) true >>= λ frames. some (
      false,
      update_page_directory_entry page_dir physical_addr virtual_addr (flags 1 1 1 1),
      record {
        page_frame_map = frames;
        free_page_frame_count = (m.free_page_frame_count + 2 ^ 32 - 1) % 2 ^ 32;
      },
    ))
    else some (false, page_dir, m)

abbrev pub clear_entry : PageDirectory → ℕ → PageDirectory
clear_entry page_dir i = elim (get_elem? page_dir i) [
  | none ↦ page_dir
  | some e ↦ set page_dir i (record e { flag = flags 0 0 0 0; lower_address = 0 })
]

unfoldable pub paging_free_user_page_frame : PageDirectory → ℕ → PageManagerState → Outcome
paging_free_user_page_frame page_dir virtual_addr m =
    mark_frame m.page_frame_map (used_count m.free_page_frame_count) false >>= λ frames. some (
      true,
      clear_entry page_dir (page_index virtual_addr),
      record {
        page_frame_map = frames;
        free_page_frame_count = (m.free_page_frame_count + 1) % 2 ^ 32;
      },
    )

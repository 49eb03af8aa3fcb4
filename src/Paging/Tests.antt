-- ===== src/Paging/Tests.antt =====
-- The theorems on page frames at concrete inputs.
use os_2024_operatingstress.Base.{
  ℕ, ◌+◌, ◌≡◌, refl, ◌≢◌, true, false, some, ◌∷◌, arith, get_elem?, set, replicate,
}
use os_2024_operatingstress.Paging.{
  PageDirectory, PageDirectoryEntry, PageManagerState, flags, page_index, page_manager_state,
  paging_kernel_page_directory, paging_allocate_user_page_frame, paging_free_user_page_frame,
}
use os_2024_operatingstress.Paging.Laws.{IsPaging, allocate_lem, free_lem, free-allocate}

kernel-IsPaging : IsPaging paging_kernel_page_directory page_manager_state
unfolding paging_kernel_page_directory
kernel-IsPaging = record { entries = refl; frames = refl }

-- The first allocation, of the address where the shell is loaded.
allocate_lem_example :
    (page_dir' : PageDirectory) × (m' : PageManagerState) × (e : PageDirectoryEntry)
    × (paging_allocate_user_page_frame paging_kernel_page_directory 0x400000 page_manager_state
        ≡ some (false, page_dir', m'))
    × IsPaging page_dir' m'
    × (m'.free_page_frame_count + 1 ≡ 32)
    × (m'.page_frame_map ≡ set (true ∷ replicate 31 false) 0 true)
    × (get_elem? page_dir' (page_index 0x400000) ≡ some e)
    × (e.flag ≡ flags 1 1 1 1)
    × (e.lower_address ≡ 0)
    × ((j : ℕ)
        → j ≢ page_index 0x400000
        → get_elem? page_dir' j ≡ get_elem? paging_kernel_page_directory j)
allocate_lem_example =
    allocate_lem paging_kernel_page_directory 0x400000 page_manager_state kernel-IsPaging
      (omega arith) (omega arith)

free_lem_example :
    (page_dir' : PageDirectory) × (m' : PageManagerState) × (e : PageDirectoryEntry)
    × (paging_free_user_page_frame paging_kernel_page_directory 0x400000 page_manager_state
        ≡ some (true, page_dir', m'))
    × (m'.free_page_frame_count ≡ 32 + 1)
    × (m'.page_frame_map ≡ set (true ∷ replicate 31 false) 0 false)
    × (get_elem? page_dir' (page_index 0x400000) ≡ some e)
    × (e.flag ≡ flags 0 0 0 0)
    × ((j : ℕ)
        → j ≢ page_index 0x400000
        → get_elem? page_dir' j ≡ get_elem? paging_kernel_page_directory j)
free_lem_example =
    free_lem paging_kernel_page_directory 0x400000 page_manager_state kernel-IsPaging (omega arith)
      (omega arith)

free-allocate_example :
    (page_dir' : PageDirectory) × (m' : PageManagerState) × (page_dir'' : PageDirectory)
    × (m'' : PageManagerState) × (e : PageDirectoryEntry) × (paging_allocate_user_page_frame
          paging_kernel_page_directory 0x400000 page_manager_state
        ≡ some (false, page_dir', m'))
    × (paging_free_user_page_frame page_dir' 0x400000 m' ≡ some (true, page_dir'', m''))
    × (m''.free_page_frame_count ≡ 32)
    × (get_elem? page_dir'' (page_index 0x400000) ≡ some e)
    × (e.flag ≡ flags 0 0 0 0)
    × (get_elem? m''.page_frame_map 0 ≡ some true)
free-allocate_example =
    free-allocate paging_kernel_page_directory 0x400000 page_manager_state kernel-IsPaging
      (omega arith) (omega arith)

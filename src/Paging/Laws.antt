-- ===== src/Paging/Laws.antt =====
-- What allocation and release of a user page frame do to the directory and to the frame map.
use os_2024_operatingstress.Base.{
  ℕ, ◌+◌, ◌-◌, ◌≤◌, ◌<◌, ◌≡◌, refl, sym, ap, ◌∙◌, ◌≢◌, true, false, some, arith, length, get_elem?,
  set, length-set, get_elem?-set_self, get_elem?-set_ne, get_elem?-some,
}
use os_2024_operatingstress.Paging.{
  PageDirectory, PageDirectoryEntry, PageDirectoryEntryFlag, PageManagerState, flags, page_index,
  update_page_directory_entry, paging_allocate_check, mark_frame, used_count,
  paging_allocate_user_page_frame, paging_free_user_page_frame,
}

-- A directory of 1024 entries and a map of 32 frames.
pub record IsPaging (page_dir : PageDirectory) (m : PageManagerState) : Type 0 where
  pub entries : length page_dir ≡ 1024
  pub frames : length m.page_frame_map ≡ 32

-- The allocation check is about the very count that it is compared with, so it always passes.
pub allocate_check_always :
    (m : PageManagerState) → paging_allocate_check m m.free_page_frame_count ≡ true
unfolding paging_allocate_check
allocate_check_always m = ground arith

update_entry :
    (page_dir : PageDirectory) (physical virtual : ℕ) (flag : PageDirectoryEntryFlag)
    → length page_dir ≡ 1024
    → (e : PageDirectoryEntry) × (get_elem? page_dir (page_index virtual) ≡ some e)
      × (update_page_directory_entry page_dir physical virtual flag
          ≡ set page_dir
              (page_index virtual)
              (record e { flag = flag; lower_address = page_index physical }))
unfolding update_page_directory_entry
update_entry page_dir physical virtual flag h =
    let found = get_elem?-some page_dir (page_index virtual) (omega arith) in
    (found.0, found.1, rw (found.1, update_page_directory_entry))

-- With 1024 entries and 32 frames, while from 1 to 32 of these count as free, allocating maps
-- exactly the page of the address, for the user and writable, counts one frame less as free, and
-- sets the mark at the index 32 minus the free count, whether or not it was set; but it answers
-- false, and the entry always names frame 0.
pub allocate_lem :
    (page_dir : PageDirectory) (virtual : ℕ) (m : PageManagerState)
    → IsPaging page_dir m
    → 0 < m.free_page_frame_count
    → m.free_page_frame_count ≤ 32
    → (page_dir' : PageDirectory) × (m' : PageManagerState) × (e : PageDirectoryEntry)
      × (paging_allocate_user_page_frame page_dir virtual m ≡ some (false, page_dir', m'))
      × IsPaging page_dir' m'
      × (m'.free_page_frame_count + 1 ≡ m.free_page_frame_count)
      × (m'.page_frame_map ≡ set m.page_frame_map (32 - m.free_page_frame_count) true)
      × (get_elem? page_dir' (page_index virtual) ≡ some e)
      × (e.flag ≡ flags 1 1 1 1)
      × (e.lower_address ≡ 0)
      × ((j : ℕ) → j ≢ page_index virtual → get_elem? page_dir' j ≡ get_elem? page_dir j)
unfolding paging_allocate_user_page_frame mark_frame paging_allocate_check
allocate_lem page_dir virtual m v lo hi =
    let at = page_index virtual in
    let old = update_entry page_dir m.free_page_frame_count virtual (flags 1 1 1 1) v.entries in
    let new : PageDirectoryEntry = record (old.0) {
      flag = flags 1 1 1 1;
      lower_address = page_index m.free_page_frame_count;
    } in
    let used : used_count m.free_page_frame_count ≡ 32 - m.free_page_frame_count = omega arith in
    let frames = set m.page_frame_map (32 - m.free_page_frame_count) true in
    (
      set page_dir at new,
      record { page_frame_map = frames; free_page_frame_count = m.free_page_frame_count - 1 },
      new,
      ground (arith, used, old.2, v.frames),
      record {
        entries = length-set page_dir at new ∙ v.entries;
        frames = length-set m.page_frame_map (32 - m.free_page_frame_count) true ∙ v.frames;
      },
      omega arith,
      refl,
      get_elem?-set_self page_dir at new (omega arith),
      refl,
      omega arith,
      λ j p. get_elem?-set_ne page_dir at j new (λ e. p (sym e)),
    )

-- Releasing unmaps the page of the address, counts one frame more as free and clears the mark of
-- the frame whose index is the number of frames in use.
pub free_lem :
    (page_dir : PageDirectory) (virtual : ℕ) (m : PageManagerState)
    → IsPaging page_dir m
    → 0 < m.free_page_frame_count
    → m.free_page_frame_count ≤ 32
    → (page_dir' : PageDirectory) × (m' : PageManagerState) × (e : PageDirectoryEntry)
      × (paging_free_user_page_frame page_dir virtual m ≡ some (true, page_dir', m'))
      × (m'.free_page_frame_count ≡ m.free_page_frame_count + 1)
      × (m'.page_frame_map ≡ set m.page_frame_map (32 - m.free_page_frame_count) false)
      × (get_elem? page_dir' (page_index virtual) ≡ some e)
      × (e.flag ≡ flags 0 0 0 0)
      × ((j : ℕ) → j ≢ page_index virtual → get_elem? page_dir' j ≡ get_elem? page_dir j)
unfolding paging_free_user_page_frame mark_frame
free_lem page_dir virtual m v lo hi =
    let at = page_index virtual in
    let old = get_elem?-some page_dir at (omega (arith, v.entries)) in
    let new : PageDirectoryEntry = record (old.0) { flag = flags 0 0 0 0; lower_address = 0 } in
    let used : used_count m.free_page_frame_count ≡ 32 - m.free_page_frame_count = omega arith in
    let frames = set m.page_frame_map (32 - m.free_page_frame_count) false in
    (
      set page_dir at new,
      record { page_frame_map = frames; free_page_frame_count = m.free_page_frame_count + 1 },
      new,
      ground (arith, used, old.1, v.frames),
      refl,
      refl,
      get_elem?-set_self page_dir at new (omega (arith, v.entries)),
      refl,
      λ j p. get_elem?-set_ne page_dir at j new (λ e. p (sym e)),
    )

-- With 1024 entries and 32 frames of which from 2 to 32 count as free, after an allocation
-- releasing the same address brings the count back and unmaps the page; but the frame that was
-- marked stays marked.
pub free-allocate :
    (page_dir : PageDirectory) (virtual : ℕ) (m : PageManagerState)
    → IsPaging page_dir m
    → 1 < m.free_page_frame_count
    → m.free_page_frame_count ≤ 32
    → (page_dir' : PageDirectory) × (m' : PageManagerState) × (page_dir'' : PageDirectory)
      × (m'' : PageManagerState) × (e : PageDirectoryEntry) × (paging_allocate_user_page_frame
            page_dir virtual m
          ≡ some (false, page_dir', m'))
      × (paging_free_user_page_frame page_dir' virtual m' ≡ some (true, page_dir'', m''))
      × (m''.free_page_frame_count ≡ m.free_page_frame_count)
      × (get_elem? page_dir'' (page_index virtual) ≡ some e)
      × (e.flag ≡ flags 0 0 0 0)
      × (get_elem? m''.page_frame_map (32 - m.free_page_frame_count) ≡ some true)
free-allocate page_dir virtual m v lo hi =
    let (pd', m', e, run, v', count, map', at, flag, low, same) =
      allocate_lem page_dir virtual m v (omega arith) hi in
    let one : 0 < m'.free_page_frame_count = omega (arith, count) in
    let (pd'', m'', e'', run', count', map'', at', flag', same') =
      free_lem pd' virtual m' v' one (omega (arith, count)) in
    let kept : get_elem? (set m'.page_frame_map (32 - m'.free_page_frame_count) false)
          (32 - m.free_page_frame_count)
        ≡ get_elem? m'.page_frame_map (32 - m.free_page_frame_count) =
      get_elem?-set_ne m'.page_frame_map (32 - m'.free_page_frame_count)
        (32 - m.free_page_frame_count) false (omega (arith, count)) in
    let marked : get_elem? m'.page_frame_map (32 - m.free_page_frame_count) ≡ some true =
      ap (λ l. get_elem? l (32 - m.free_page_frame_count)) map'
      ∙ get_elem?-set_self m.page_frame_map (32 - m.free_page_frame_count) true
          (omega (arith, v.frames)) in
    (
      pd',
      m',
      pd'',
      m'',
      e'',
      run,
      run',
      omega (arith, count, count'),
      at',
      flag',
      ap (λ l. get_elem? l (32 - m.free_page_frame_count)) map'' ∙ (kept ∙ marked),
    )

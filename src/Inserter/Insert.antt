-- ===== src/Inserter/Insert.antt =====
-- `make insert-shell`: the inserter puts the program "shell" into the root of an image that is not
-- formatted.
use os_2024_operatingstress.Base.{
  set, ℕ, ◌*◌, ◌%◌, ◌^◌, ◌≤◌, ◌<◌, ◌≡◌, refl, sym, ap, ap₂, ◌∙◌, subst, ◌≢◌, true, false, not,
  Option, some, List, [], ◌∷◌, ◌++◌, arith, length, get_elem?, take, drop, replicate,
}
use mathlib.Core.List.{append-nil}
use os_2024_operatingstress.Strings.{memcmp}
use os_2024_operatingstress.Disk.{Storage, read_blocks}
use os_2024_operatingstress.Disk.Invariant.{IsStorage}
use os_2024_operatingstress.Fat32.Types.{DirectoryEntry, DriverRequest}
use os_2024_operatingstress.Fat32.Driver.{DriverState, read_table, read_fat, same_bytes}
use os_2024_operatingstress.Fat32.Driver.Invariant.{IsState}
use os_2024_operatingstress.Fat32.Init.{
  fs_signature, zero_entry, root_name, initial_fat, init_directory_table, init_entry, create_fat32,
  is_empty_storage, initialize_filesystem_fat32,
}
use os_2024_operatingstress.Fat32.Init.Laws.{directory_entry, create_fat32_lem}
use os_2024_operatingstress.Fat32.Write.{is_duplicate, free_slot, total_clusters}
use os_2024_operatingstress.Fat32.Write.Search.{free_count}
use os_2024_operatingstress.Fat32.Write.File.{
  file_entry, CanWrite, total_clusters_lem, write_creates_file,
}
use os_2024_operatingstress.Fat32.Files.{File, Holds, Stores}
use os_2024_operatingstress.Fat32.Files.Write.{new_file, Holds-new}
use os_2024_operatingstress.Boot.First.{is_empty_storage_cong}
use os_2024_operatingstress.Inserter.{
  Host, insert_request, scan_name, scan_parent, start_driver, insert, main, retcode_line, filename,
  filesize, write_success,
}
use os_2024_operatingstress.Inserter.Laws.{
  IsHost, loaded_lem, buffered, first_block, static_state, static_state-IsState,
}

-- "shell"
abbrev pub shell_name : List ℕ
shell_name = 115 ∷ 104 ∷ 101 ∷ 108 ∷ 108 ∷ []

-- The arguments name a program that fits, the root directory and an image of 4 MB whose first block
-- is not the signature.
pub record CanInsert (h : Host) (target parent storage image program : List ℕ) : Type 0 where
  pub host : IsHost h
  pub is_image : h.open_read storage ≡ some image
  pub image_size : length image ≡ 4194304
  pub unformatted : same_bytes (take 512 image) fs_signature 512 ≡ false
  pub writable : h.open_write storage ≡ true
  pub is_program : h.open_read target ≡ some program
  pub not_empty : length program ≢ 0
  pub fits : length program ≤ 508 * 2048
  pub named : h.scan_word target ≡ some shell_name
  pub in_root : h.scan_number parent ≡ some 2

free_clusters : free_count (initial_fat (replicate 512 0)) ≡ 509
free_clusters = omega arith

module _ {h : Host} {target parent storage image program : List ℕ}
    (w : CanInsert h target parent storage image program) where
  small : length program ≤ 4194304
  small = omega (arith, w.fits)

  -- The state in which the file system is initialised.
  abbrev start : DriverState
  start =
      static_state h w.host image program target storage w.is_image w.is_program w.image_size small

  start-IsState : IsState start
  start-IsState =
      static_state-IsState h w.host image program target storage w.is_image w.is_program
        w.image_size small

  abbrev formatted : DriverState
  formatted = create_fat32 start

  start_unformatted : is_empty_storage start.disk ≡ true
  unfolding is_empty_storage read_blocks
  start_unformatted =
      ap (λ b. not (same_bytes (b ++ []) fs_signature 512))
        (first_block h w.host image program target storage w.is_image w.is_program w.image_size
          small)
      ∙ (ap (λ b. not (same_bytes b fs_signature 512)) (append-nil (take 512 image))
          ∙ ap not w.unformatted)

  -- The request of the program.
  abbrev shell_file : DriverRequest
  shell_file = record {
    buf = h.file_buffer;
    name = 115 ∷ 104 ∷ 101 ∷ 108 ∷ 108 ∷ 0 ∷ 0 ∷ 0 ∷ [];
    ext = 0 ∷ 0 ∷ 0 ∷ [];
    parent_cluster_number = 2;
    buffer_size = length program;
  }

  shell_file_lem : insert_request h target parent (length program) ≡ shell_file
  unfolding insert_request scan_name scan_parent
  shell_file_lem =
      let request : Option (List ℕ) → Option ℕ → ℕ → DriverRequest = λ word number size. record {
        buf = h.file_buffer;
        name = take 8 (scan_name word);
        ext = drop 8 (scan_name word);
        parent_cluster_number = scan_parent number;
        buffer_size = size;
      } in
      ap₂ (λ word number. request word number (length program % 2 ^ 32)) w.named w.in_root
      ∙ ap (request (some shell_name) (some 2)) (omega (arith, small))

  start_lem : start_driver h start.memory ≡ formatted
  unfolding start_driver initialize_filesystem_fat32
  start_lem = rw start_unformatted refl

  formatted_fat : read_fat formatted.disk ≡ initial_fat (replicate 512 0)
  unfolding create_fat32
  formatted_fat = (create_fat32_lem start start-IsState).1

  formatted_root :
      read_table formatted.disk 2 ≡ init_entry zero_entry root_name 2 ∷ replicate 63 zero_entry
  unfolding init_directory_table
  formatted_root = (create_fat32_lem start start-IsState).2

  few : total_clusters (length program) < 509
  few =
      let (m, e, lo, hi) = total_clusters_lem (length program) w.not_empty in
      omega (arith, e, lo, w.fits)

  shell_file-CanWrite : CanWrite shell_file formatted 1 zero_entry
  unfolding is_duplicate same_bytes free_slot init_entry memcmp
  shell_file-CanWrite = record {
    request = record {
      name = refl;
      ext = refl;
      name_bytes = omega arith;
      ext_bytes = omega arith;
      parent = omega arith;
      size = omega (arith, small);
    };
    state = (create_fat32_lem start start-IsState).3;
    is_file = w.not_empty;
    parent_in = omega arith;
    parent_used = rw formatted_fat (ground arith);
    parent_apart = omega arith;
    fat_used = rw formatted_fat (ground arith);
    is_new = rw formatted_root refl;
    slot_found = rw formatted_root refl;
    held = rw formatted_root refl;
    room =
        rw formatted_fat (subst (λ n. total_clusters (length program) < n) (sym free_clusters) few);
  }

  abbrev written : DriverState
  written = (write_creates_file shell_file-CanWrite).0

  first : ℕ
  first = (write_creates_file shell_file-CanWrite).1

  more : List ℕ
  more = (write_creates_file shell_file-CanWrite).2

  -- The file that the image holds.
  abbrev shell : File
  shell = new_file shell_file-CanWrite first more

  first_used : get_elem? (read_fat formatted.disk) 0 ≢ some 0
  first_used = rw formatted_fat (ground arith)

  shell-Holds : Holds written.disk 2 shell
  unfolding first more
  shell-Holds =
      Holds-new shell_file-CanWrite written first more refl first_used
        (write_creates_file shell_file-CanWrite).4

  program_bytes : shell.bytes ≡ buffered h image program
  unfolding create_fat32
  program_bytes = refl

  new_entry : DirectoryEntry
  new_entry = file_entry shell_file first zero_entry

  written_root :
      read_table written.disk 2
      ≡ directory_entry (82 ∷ 79 ∷ 79 ∷ 84 ∷ 0 ∷ 0 ∷ 0 ∷ 0 ∷ []) 2
        ∷ new_entry
        ∷ replicate 62 zero_entry
  unfolding init_entry first new_entry
  written_root =
      (write_creates_file shell_file-CanWrite).4.table
      ∙ ap (λ t. set t 1 (file_entry shell_file first zero_entry)) formatted_root

  written_formatted : is_empty_storage written.disk ≡ false
  written_formatted =
      let h' = (write_creates_file shell_file-CanWrite).4 in
      let created = create_fat32_lem start start-IsState in
      is_empty_storage_cong written.disk formatted.disk h'.valid.disk created.3.disk
        (h'.others 0 (omega arith) (omega arith) (omega arith) first_used)
      ∙ created.0

  -- With an image of 4 MB that is not formatted and a program that is not empty and fits into 508
  -- clusters, under the name "shell" and for the root directory, on a host that opens the files and
  -- behaves as documented: the inserter ends with status 0 and the line for success. The 4 MB that
  -- it writes back are the blocks of a well-formed disk that is formatted and whose root directory
  -- has its own entry, one file in slot 1, named "shell" padded with zeros, and zeros behind it.
  -- The file has the program's size, and its bytes are those that `fread` left in the file's
  -- buffer.
  pub main_inserts_shell :
      (name : List ℕ) (rest : List (List ℕ))
      → (d : Storage) × (f : File) × (main h (name ∷ target ∷ parent ∷ storage ∷ rest)
          ≡ some (record {
            status = 0;
            printed = filename target ∷ filesize (length program) ∷ write_success ∷ [];
            image = some (read_blocks d 0 8192);
          }))
        × IsStorage d
        × (is_empty_storage d ≡ false)
        × Stores d 2 (f ∷ [])
        × (f.bytes ≡ buffered h image program)
        × (f.name ≡ shell_name ++ replicate 3 0)
        × (f.ext ≡ replicate 3 0)
        × (f.slot ≡ 1)
        × (e : DirectoryEntry) × (read_table d 2
            ≡ directory_entry (82 ∷ 79 ∷ 79 ∷ 84 ∷ 0 ∷ 0 ∷ 0 ∷ 0 ∷ []) 2
              ∷ e
              ∷ replicate 62 zero_entry)
  unfolding main insert retcode_line
  main_inserts_shell name rest = (
    written.disk,
    shell,
    rw
        (
          w.is_image,
          loaded_lem h w.host image program target storage w.is_image w.is_program w.image_size
              small,
          shell_file_lem,
          start_lem,
          (write_creates_file shell_file-CanWrite).3,
          w.writable,
        )
        refl,
    (write_creates_file shell_file-CanWrite).4.valid.disk,
    written_formatted,
    record { files = (shell-Holds, tt); disjoint = (tt, tt) },
    program_bytes,
    refl,
    refl,
    refl,
    new_entry,
    written_root,
  )

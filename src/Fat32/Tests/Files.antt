-- ===== src/Fat32/Tests/Files.antt =====
-- The theorems on writing a file, at the file "note.txt" of five bytes on a formatted disk.
use os_2024_operatingstress.Base.{
  ℕ, ◌+◌, ◌*◌, ◌≤◌, ◌<◌, ◌≡◌, refl, ◌⊎◌, List, arith, pos, replicate,
}
use os_2024_operatingstress.Strings.{memcmp}
use os_2024_operatingstress.Fat32.Types.{IsRequest, DriverRequest}
use os_2024_operatingstress.Fat32.Driver.{DriverState, reply, read_fat, same_bytes, load_bytes}
use os_2024_operatingstress.Fat32.Init.{
  zero_entry, initial_fat, init_entry, init_directory_table, create_fat32,
}
use os_2024_operatingstress.Fat32.Init.Laws.{create_fat32_lem}
use os_2024_operatingstress.Fat32.Read.{read}
use os_2024_operatingstress.Fat32.Write.{write, is_duplicate, free_slot, total_clusters}
use os_2024_operatingstress.Fat32.Write.File.{CanWrite, Written, write_creates_file}
use os_2024_operatingstress.Fat32.RoundTrip.{read-write}
use os_2024_operatingstress.Fat32.Tests.{blank, blank-IsState, note, txt, request}

abbrev pub note_new : DriverRequest
note_new = request note txt 5

pub note_new-IsRequest : IsRequest note_new
note_new-IsRequest = record {
  name = refl;
  ext = refl;
  name_bytes = omega arith;
  ext_bytes = omega arith;
  parent = omega arith;
  size = omega arith;
}

new_fat : read_fat (create_fat32 blank).disk ≡ initial_fat (replicate 512 0)
unfolding create_fat32
new_fat = (create_fat32_lem blank blank-IsState).1

pub note_new-CanWrite : CanWrite note_new (create_fat32 blank) 1 zero_entry
unfolding is_duplicate same_bytes free_slot init_entry memcmp init_directory_table
note_new-CanWrite =
    let created = create_fat32_lem blank blank-IsState in
    record {
      request = note_new-IsRequest;
      state = created.3;
      is_file = omega arith;
      parent_in = omega arith;
      parent_used = rw new_fat (ground arith);
      parent_apart = omega arith;
      fat_used = rw new_fat (ground arith);
      is_new = rw created.2 refl;
      slot_found = rw created.2 refl;
      held = rw created.2 refl;
      room = rw new_fat (omega arith);
    }

write_creates_file_example :
    (s' : DriverState) × (c : ℕ) × (cs : List ℕ) × (write note_new (create_fat32 blank)
      ≡ reply (pos 0) s')
    × Written note_new (create_fat32 blank) 1 zero_entry s' c cs
write_creates_file_example = write_creates_file note_new-CanWrite

read-write_example :
    (s' s'' : DriverState) × (write note_new (create_fat32 blank) ≡ reply (pos 0) s')
    × (read (record note_new { buf = 8192; buffer_size = 2048 }) s' ≡ reply (pos 0) s'')
    × (load_bytes s''.memory 8192 5 ≡ load_bytes (create_fat32 blank).memory 4096 5)
    × (s''.disk ≡ s'.disk)
    × ((a : ℕ)
        → (a < 8192) ⊎ (8192 + 2048 * total_clusters 5 ≤ a)
        → s''.memory a ≡ (create_fat32 blank).memory a)
read-write_example = read-write note_new-CanWrite refl 8192 2048 (omega arith) (omega arith)

-- The state after the file is written.
abbrev note_state : DriverState
note_state = (write_creates_file note_new-CanWrite).0

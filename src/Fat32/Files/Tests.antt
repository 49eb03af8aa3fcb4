-- ===== src/Fat32/Files/Tests.antt =====
-- The view of a directory, at the file "note.txt" of five bytes in the root of a formatted disk.
use os_2024_operatingstress.Base.{
  ℕ, ◌+◌, ◌*◌, ◌≤◌, ◌<◌, ◌≡◌, refl, ap, ◌∙◌, ◌≢◌, ◌⊎◌, true, some, List, [], ◌∷◌, arith, pos,
  length, get_elem?, set, replicate, eq-nil,
}
use os_2024_operatingstress.Strings.{memcmp, strlen}
use os_2024_operatingstress.Fat32.Codec.{encode_table, encode_entry, request_bytes}
use os_2024_operatingstress.Fat32.Driver.{DriverState, reply, read_fat, read_table, load_bytes}
use os_2024_operatingstress.Fat32.Driver.Invariant.{IsState, load_bytes-Bytes}
use os_2024_operatingstress.Fat32.Init.{
  zero_entry, root_name, init_entry, init_directory_table, create_fat32,
}
use os_2024_operatingstress.Fat32.Init.Laws.{create_fat32_lem}
use os_2024_operatingstress.Fat32.Read.{read}
use os_2024_operatingstress.Fat32.Write.{write, claim_entry}
use os_2024_operatingstress.Fat32.Write.File.{file_entry, write_creates_file}
use os_2024_operatingstress.Fat32.Delete.{delete, matches_name}
use os_2024_operatingstress.Fat32.Tests.{blank, blank-IsState, note, txt, request}
use os_2024_operatingstress.Fat32.Tests.Files.{note_new, note_new-IsRequest, note_new-CanWrite}
use os_2024_operatingstress.Fat32.Files.{File, chain, Holds, Stores}
use os_2024_operatingstress.Fat32.Files.Read.{read_refines}
use os_2024_operatingstress.Fat32.Files.Write.{new_file, Holds-new, write_refines}
use os_2024_operatingstress.Fat32.Files.Delete.{Chooses}
use os_2024_operatingstress.Fat32.Files.Deleted.{read-delete}
use os_2024_operatingstress.Fat32.Files.Undo.{delete-write}

abbrev empty : DriverState
empty = create_fat32 blank

zero_used : get_elem? (read_fat empty.disk) 0 ≢ some 0
unfolding create_fat32
zero_used = rw (create_fat32_lem blank blank-IsState).1 (ground arith)

write_refines_example :
    (s' : DriverState) × (c : ℕ) × (cs : List ℕ) × (write note_new empty ≡ reply (pos 0) s')
    × Stores s'.disk 2 (new_file note_new-CanWrite c cs ∷ [])
    × (s'.fat_table ≡ read_fat s'.disk)
    × (s'.memory ≡ empty.memory)
    × IsState s'
write_refines_example =
    write_refines note_new-CanWrite [] refl zero_used (record { files = tt; disjoint = tt })

-- The state after the file is written, and the file.
abbrev after : DriverState
after = (write_creates_file note_new-CanWrite).0

abbrev file : File
file =
    new_file note_new-CanWrite (write_creates_file note_new-CanWrite).1
      (write_creates_file note_new-CanWrite).2

file_size : length file.bytes ≡ 5
file_size = (load_bytes-Bytes 5 empty.memory 4096 (create_fat32_lem blank blank-IsState).3.memory).0

one_cluster : file.rest ≡ []
one_cluster = eq-nil file.rest (omega (arith, (write_creates_file note_new-CanWrite).4.count))

file-Holds : Holds after.disk 2 file
file-Holds =
    Holds-new note_new-CanWrite after file.first file.rest refl zero_used
      (write_creates_file note_new-CanWrite).4

file_table :
    read_table after.disk 2
    ≡ init_entry zero_entry root_name 2
      ∷ file_entry note_new file.first zero_entry
      ∷ replicate 62 zero_entry
unfolding init_directory_table
file_table =
    (write_creates_file note_new-CanWrite).4.table
    ∙ ap (λ t. set t 1 (file_entry note_new file.first zero_entry))
        (create_fat32_lem blank blank-IsState).2

named :
    (c : ℕ)
    → matches_name note_new (file_entry note_new c zero_entry ∷ replicate 62 zero_entry) ≡ some true
unfolding matches_name strlen memcmp encode_table encode_entry request_bytes claim_entry
named c = refl

abbrev file-Chooses : Chooses note_new after file
file-Chooses = record {
  state = (write_creates_file note_new-CanWrite).4.valid;
  request = note_new-IsRequest;
  cached = (write_creates_file note_new-CanWrite).4.cached_fat;
  parent_in = omega arith;
  parent_apart = omega arith;
  own = init_entry zero_entry root_name 2;
  xs = [];
  e = file_entry note_new file.first zero_entry;
  ys = replicate 62 zero_entry;
  table = file_table;
  slot = refl;
  passed = tt;
  named = named file.first;
  ext = refl;
}

read_refines_example :
    (s' : DriverState) × (read (request note txt 10240) after ≡ reply (pos 0) s')
    × (load_bytes s'.memory 4096 (length file.bytes) ≡ file.bytes)
    × ((a : ℕ)
        → (a < 4096) ⊎ (4096 + 2048 * length (chain file) ≤ a)
        → s'.memory a ≡ after.memory a)
    × (s'.disk ≡ after.disk)
    × (s'.fat_table ≡ after.fat_table)
read_refines_example =
    read_refines (request note txt 10240) after file (write_creates_file note_new-CanWrite).4.valid
      (record {
        name = refl;
        ext = refl;
        name_bytes = omega arith;
        ext_bytes = omega arith;
        parent = omega arith;
        size = omega arith;
      })
      (write_creates_file note_new-CanWrite).4.cached_fat file-Holds refl refl
      (omega (arith, file_size))

read-delete_example :
    (s' s'' : DriverState) × (delete note_new after ≡ reply (pos 0) s')
    × (get_elem? s'.fat_table file.first ≡ some 0)
    × (read note_new s' ≡ reply (pos 0) s'')
    × (load_bytes s''.memory 4096 (length file.bytes) ≡ file.bytes)
read-delete_example =
    read-delete note_new note_new after file file-Chooses file-Holds one_cluster note_new-IsRequest
      refl refl refl (omega (arith, file_size))

delete-write_example :
    (s'' : DriverState) × (delete note_new after ≡ reply (pos 0) s'')
    × (read_fat s''.disk ≡ read_fat empty.disk)
delete-write_example =
    delete-write note_new-CanWrite note_new after file.first file.rest refl zero_used
      (write_creates_file note_new-CanWrite).4 refl file-Chooses

-- ===== src/Fat32/Tests.antt =====
-- The file system's theorems at concrete disks: a blank one, the same after formatting, and
-- formatted ones with a given root directory.
pub mod Files
use os_2024_operatingstress.Base.{
  ℕ, zero, suc, ◌+◌, ◌*◌, ◌^◌, ◌≤◌, ◌<◌, ◌≡◌, refl, sym, ap, ◌∙◌, subst, ◌≢◌, ◌↔◌, inl, Bool, true,
  false, some, List, [], ◌∷◌, arith, pos, if◌then◌else◌, get_elem?, set, take, drop, replicate, All,
  All-replicate,
}
use os_2024_operatingstress.Disk.{Storage, read_blocks, write_blocks}
use os_2024_operatingstress.Fat32.Types.{
  DirectoryEntry, DirectoryTable, DriverRequest, IsTable, IsEntry, IsRequest,
}
use os_2024_operatingstress.Fat32.Codec.{
  decode_entry, encode_table, decode_table, encode_fat, decode_fat,
}
use os_2024_operatingstress.Fat32.Codec.Laws.{decode_table-encode_table, decode_fat-encode_fat}
use os_2024_operatingstress.Fat32.Driver.{
  DriverState, reply, read_clusters, write_fat, read_table, write_table, read_fat, divceil,
}
use os_2024_operatingstress.Fat32.Driver.Laws.{
  read_table-write_table, read_clusters-write_table, read_clusters-write_fat, read_table_cong,
  read_fat_cong, divceil_lem,
}
use os_2024_operatingstress.Fat32.Driver.Invariant.{IsState, write_table-IsStorage}
use os_2024_operatingstress.Fat32.Init.{
  fs_signature, zero_entry, zero_table, init_entry, init_directory_table, root_table, root_name,
  initial_fat, create_fat32, initialize_filesystem_fat32, is_empty_storage,
}
use os_2024_operatingstress.Fat32.Init.Laws.{
  directory_entry, create_fat32_lem, create_fat32_formats, initialize-initialize,
}
use os_2024_operatingstress.Fat32.Read.{
  read, read_chain, load_cluster, read_entry, read_directory, read_directory_entry,
}
use os_2024_operatingstress.Fat32.Read.Laws.{
  NameExt, read_first_match, read_missing, read_disk, read_directory_first_match,
}
use os_2024_operatingstress.Fat32.Write.{write, free_cluster, find_empty, free_slot}
use os_2024_operatingstress.Fat32.Write.Laws.{free_cluster_first}
use os_2024_operatingstress.Fat32.Write.Refusal.{write_duplicate, write_directory_never_exists}
use os_2024_operatingstress.Fat32.Write.Directory.{CanCreate, Created, write_creates_directory}
use os_2024_operatingstress.Fat32.Delete.{
  delete, any_used, mark_deleted, clear_clusters, clear_cluster, matches_name,
}
use os_2024_operatingstress.Fat32.Delete.Laws.{matches_name_prefix, delete_missing, Skips}
use os_2024_operatingstress.Fat32.Delete.Directory.{
  Reaches, any_used-held, drop-suc, clear_clusters_lem, has, delete_empty, delete_not_empty,
}

abbrev pub blank : DriverState
blank = record {
  memory = λ a. 0;
  disk = λ b. replicate 512 0;
  fat_table = replicate 512 0;
  dir_table_buf = zero_table;
}

zero_entry-IsEntry : IsEntry zero_entry
zero_entry-IsEntry = omega arith

pub blank-IsState : IsState blank
blank-IsState = record {
  memory = λ a. omega arith;
  disk = record { size = λ b. refl; bytes = λ b. All-replicate (λ x. x < 256) 512 (omega arith) };
  fat = record { size = refl; entries = All-replicate (λ x. x < 2 ^ 32) 512 (omega arith) };
  table = record { size = refl; entries = All-replicate IsEntry 64 zero_entry-IsEntry };
}

created :
    (is_empty_storage (create_fat32 blank).disk ≡ false)
    × (read_fat (create_fat32 blank).disk ≡ (create_fat32 blank).fat_table)
    × (read_table (create_fat32 blank).disk 2 ≡ root_table)
    × IsState (create_fat32 blank)
created = create_fat32_lem blank blank-IsState

create_fat32_formats_example :
    (is_empty_storage (create_fat32 blank).disk ≡ false)
    × (read_table (create_fat32 blank).disk 2
        ≡ directory_entry (82 ∷ 79 ∷ 79 ∷ 84 ∷ 0 ∷ 0 ∷ 0 ∷ 0 ∷ []) 2 ∷ replicate 63 zero_entry)
    × (read_fat (create_fat32 blank).disk ≡ (create_fat32 blank).fat_table)
    × (get_elem? (create_fat32 blank).fat_table 0 ≡ some 0x0FFFFFF0)
    × (get_elem? (create_fat32 blank).fat_table 1 ≡ some 0x0FFFFFFF)
    × (get_elem? (create_fat32 blank).fat_table 2 ≡ some 0x0FFFFFFF)
    × ((k : ℕ) → 2 < k → get_elem? (create_fat32 blank).fat_table k ≡ get_elem? blank.fat_table k)
    × ((k : ℕ)
        → 2 < k
        → k < 512
        → read_clusters (create_fat32 blank).disk k ≡ read_clusters blank.disk k)
    × ((create_fat32 blank).memory ≡ blank.memory)
    × IsState (create_fat32 blank)
create_fat32_formats_example = create_fat32_formats blank blank-IsState

initialize-initialize_example :
    (is_empty_storage (initialize_filesystem_fat32 blank).disk ≡ false)
    × (read_fat (initialize_filesystem_fat32 blank).disk
        ≡ (initialize_filesystem_fat32 blank).fat_table)
    × (initialize_filesystem_fat32 (initialize_filesystem_fat32 blank)
        ≡ initialize_filesystem_fat32 blank)
initialize-initialize_example = initialize-initialize blank blank-IsState

abbrev fat : List ℕ
fat = initial_fat (replicate 512 0)

formatted_fat : read_fat (create_fat32 blank).disk ≡ fat
unfolding create_fat32
formatted_fat = created.1

-- A formatted disk with root directory `t`.
abbrev with_root : DirectoryTable → DriverState
with_root t = record (create_fat32 blank) { disk = write_table t 2 (create_fat32 blank).disk }

with_root_table : (t : DirectoryTable) → IsTable t → read_table (with_root t).disk 2 ≡ t
with_root_table t v = read_table-write_table t 2 (create_fat32 blank).disk v

with_root_fat : (t : DirectoryTable) → read_fat (with_root t).disk ≡ fat
with_root_fat t =
    read_fat_cong (with_root t).disk (create_fat32 blank).disk (
      read_clusters-write_table t 2 1 (create_fat32 blank).disk (omega arith) (omega arith)
        (omega arith))
    ∙ formatted_fat

-- "docs" and a file "note.txt" of 5 bytes at cluster 3.
abbrev pub docs : List ℕ
docs = 100 ∷ 111 ∷ 99 ∷ 115 ∷ 0 ∷ 0 ∷ 0 ∷ 0 ∷ []

abbrev pub note : List ℕ
note = 110 ∷ 111 ∷ 116 ∷ 101 ∷ 0 ∷ 0 ∷ 0 ∷ 0 ∷ []

abbrev pub txt : List ℕ
txt = 116 ∷ 120 ∷ 116 ∷ []

abbrev pub request : List ℕ → List ℕ → ℕ → DriverRequest
request name ext size = record {
  buf = 4096;
  name = name;
  ext = ext;
  parent_cluster_number = 2;
  buffer_size = size;
}

docs-IsRequest : IsRequest (request docs (0 ∷ 0 ∷ 0 ∷ []) 0)
docs-IsRequest = record {
  name = refl;
  ext = refl;
  name_bytes = omega arith;
  ext_bytes = omega arith;
  parent = omega arith;
  size = omega arith;
}

note-IsRequest : IsRequest (request note txt 10240)
note-IsRequest = record {
  name = refl;
  ext = refl;
  name_bytes = omega arith;
  ext_bytes = omega arith;
  parent = omega arith;
  size = omega arith;
}

-- A file's entry with the given mark in `user_attribute`.
abbrev note_entry : ℕ → DirectoryEntry
note_entry mark = record zero_entry {
  name = note;
  ext = txt;
  user_attribute = mark;
  cluster_low = 3;
  filesize = 5;
}

abbrev root_entry : DirectoryEntry
root_entry = record zero_entry {
  name = root_name;
  attribute = 0x10;
  user_attribute = 0xAA;
  cluster_low = 2;
}

abbrev docs_entry : DirectoryEntry
docs_entry = record zero_entry {
  name = docs;
  attribute = 0x10;
  user_attribute = 0xAA;
  cluster_low = 3;
}

abbrev root_with : DirectoryEntry → DirectoryTable
root_with e = root_entry ∷ e ∷ replicate 62 zero_entry

root_with-IsTable : (e : DirectoryEntry) → IsEntry e → IsTable (root_with e)
root_with-IsTable e v = record {
  size = refl;
  entries = (omega arith, (v, All-replicate IsEntry 62 zero_entry-IsEntry));
}

docs-CanCreate : CanCreate (request docs (0 ∷ 0 ∷ 0 ∷ []) 0) (create_fat32 blank) 3 1
unfolding free_cluster find_empty free_slot init_directory_table init_entry
docs-CanCreate = record {
  request = docs-IsRequest;
  state = created.3;
  is_directory = refl;
  parent_in = omega arith;
  parent_used = rw formatted_fat (ground arith);
  parent_apart = omega arith;
  fat_used = rw formatted_fat (ground arith);
  cluster_found = rw formatted_fat refl;
  slot_found = rw created.2 refl;
}

write_creates_directory_example :
    (s' : DriverState) × (write (request docs (0 ∷ 0 ∷ 0 ∷ []) 0) (create_fat32 blank)
      ≡ reply (pos 0) s')
    × Created (request docs (0 ∷ 0 ∷ 0 ∷ []) 0) (create_fat32 blank) 3 1 s'
write_creates_directory_example = write_creates_directory docs-CanCreate

-- A root directory with the directory "docs" at cluster `c`.
abbrev docs_at : ℕ → DirectoryEntry
docs_at c = record docs_entry { cluster_low = c }

docs-Reaches :
    (c : ℕ)
    → IsEntry (docs_at c)
    → Reaches
        (request docs (0 ∷ 0 ∷ 0 ∷ []) 0)
        (with_root (root_with (docs_at c)))
        root_entry
        []
        (docs_at c)
        (replicate 62 zero_entry)
docs-Reaches c v = record {
  table = with_root_table (root_with (docs_at c)) (root_with-IsTable (docs_at c) v);
  passed = tt;
  used = refl;
  named =
      let lem =
        matches_name_prefix (request docs (0 ∷ 0 ∷ 0 ∷ []) 0) (docs_at c) (replicate 62 zero_entry)
          (100 ∷ 111 ∷ 99 ∷ 115 ∷ []) (0 ∷ 0 ∷ 0 ∷ []) docs-IsRequest refl refl (ground arith) in
      lem.1 ∙ ap some (lem.2.1 refl);
  directory = ground arith;
}

-- The states above are well formed, and what their clusters 2 and 3 hold.
with_root-IsState : (t : DirectoryTable) → IsTable t → IsState (with_root t)
unfolding create_fat32
with_root-IsState t v =
    let s = created.3 in
    record {
      memory = s.memory;
      disk = write_table-IsStorage t 2 (create_fat32 blank).disk v s.disk;
      fat = s.fat;
      table = s.table;
    }

formatted_root : read_table (create_fat32 blank).disk 2 ≡ root_entry ∷ replicate 63 zero_entry
unfolding init_directory_table init_entry
formatted_root = created.2

abbrev signed : Storage
signed = write_blocks blank.disk 0 1 fs_signature

docs_table_empty : any_used (drop 1 (read_table (with_root (root_with (docs_at 3))).disk 3)) ≡ false
unfolding any_used read_table read_clusters read_blocks write_blocks create_fat32 decode_table
    decode_entry
docs_table_empty =
    let own =
      read_clusters-write_table (root_with (docs_at 3)) 2 3 (create_fat32 blank).disk (omega arith)
        (omega arith) (omega arith) in
    let formatted =
      read_clusters-write_table root_table 2 3 (write_fat fat signed) (omega arith) (omega arith)
        (omega arith) in
    let table = read_clusters-write_fat fat 3 signed (omega arith) (omega arith) in
    ap (λ t. any_used (drop 1 t))
      (read_table_cong (with_root (root_with (docs_at 3))).disk signed 3
        (own ∙ (formatted ∙ table)))
    ∙ refl

docs_none_used :
    (j : ℕ) (x : DirectoryEntry)
    → get_elem? (read_table (with_root (root_with (docs_at 3))).disk 3) (suc j) ≡ some x
    → x.user_attribute ≢ 0xAA
docs_none_used j x got used =
    let t = read_table (with_root (root_with (docs_at 3))).disk 3 in
    let full = any_used-held (drop 1 t) j x (drop-suc t j ∙ got) used in
    let none = docs_table_empty in cc

delete_empty_example :
    (s' : DriverState) × (delete
        (request docs (0 ∷ 0 ∷ 0 ∷ []) 0)
        (with_root (root_with (docs_at 3)))
      ≡ reply (pos 0) s')
    × (read_fat s'.disk ≡ set fat 3 0)
    × (read_table s'.disk 2
        ≡ set (root_with (docs_at 3)) 1 (record (docs_at 3) { user_attribute = 0; undelete = 1 }))
    × ((k : ℕ)
        → k < 512
        → k ≢ 1
        → k ≢ 2
        → read_clusters s'.disk k ≡ read_clusters (with_root (root_with (docs_at 3))).disk k)
unfolding create_fat32
delete_empty_example =
    delete_empty (docs-Reaches 3 (omega arith))
      (with_root-IsState (root_with (docs_at 3)) (root_with-IsTable (docs_at 3) (omega arith)))
      (omega arith) (omega arith) (omega arith) docs_none_used

delete_not_empty_example :
    (s' : DriverState) × (delete
        (request docs (0 ∷ 0 ∷ 0 ∷ []) 0)
        (with_root (root_with (docs_at 2)))
      ≡ reply (pos 2) s')
    × (s'.disk ≡ (with_root (root_with (docs_at 2))).disk)
    × (s'.fat_table ≡ (with_root (root_with (docs_at 2))).fat_table)
    × (s'.memory ≡ (with_root (root_with (docs_at 2))).memory)
delete_not_empty_example =
    delete_not_empty (docs-Reaches 2 (omega arith)) 0 (docs_at 2)
      (ap (λ t. get_elem? t 1)
        (with_root_table (root_with (docs_at 2)) (root_with-IsTable (docs_at 2) (omega arith))))
      refl

blank-Skips : (r : DriverRequest) (n : ℕ) → Skips r (replicate n zero_entry) []
blank-Skips r zero = tt
blank-Skips r (suc n) = (inl refl, blank-Skips r n)

matches_name_prefix_example :
    (found : Bool) × (matches_name
        (request docs txt 0)
        (record zero_entry { name = 100 ∷ 111 ∷ replicate 6 0 } ∷ [])
      ≡ some found)
    × ((found ≡ true) ↔ (take 2 docs ≡ 100 ∷ 111 ∷ []))
matches_name_prefix_example =
    matches_name_prefix (request docs txt 0)
      (record zero_entry { name = 100 ∷ 111 ∷ replicate 6 0 }) [] (100 ∷ 111 ∷ []) (replicate 5 0)
      (omega arith) refl refl (ground arith)

-- The file "note.txt" of 5 bytes is read into the buffer.
abbrev with_note : ℕ → DriverState
with_note mark = with_root (root_with (note_entry mark))

with_note_table :
    (mark : ℕ) → mark < 256 → read_table (with_note mark).disk 2 ≡ root_with (note_entry mark)
with_note_table mark h =
    with_root_table (root_with (note_entry mark))
      (root_with-IsTable (note_entry mark) (omega arith))

root_entry-ne : ¬ NameExt (request note txt 10240) root_entry
root_entry-ne h = ground arith

zero_entry-ne : ¬ NameExt (request note txt 10240) zero_entry
zero_entry-ne h = ground arith

abbrev after_read : DriverState
after_read =
    load_cluster 4096 3 (record (with_note 0xAA) { dir_table_buf = root_with (note_entry 0xAA) })

read_found :
    read (request note txt 10240) (with_note 0xAA)
    ≡ read_entry
        (request note txt 10240)
        (note_entry 0xAA)
        (record (with_note 0xAA) { dir_table_buf = root_with (note_entry 0xAA) })
read_found =
    read_first_match (request note txt 10240) (with_note 0xAA) (root_entry ∷ []) (note_entry 0xAA)
      (replicate 62 zero_entry) note-IsRequest
      (root_with-IsTable (note_entry 0xAA) (omega arith)).entries
      (with_note_table 0xAA (omega arith)) (root_entry-ne, tt) (refl, refl)

read_runs : read (request note txt 10240) (with_note 0xAA) ≡ reply (pos 0) after_read
unfolding read_entry read_chain divceil create_fat32
read_runs = read_found ∙ refl

read_disk_example :
    (after_read.disk ≡ (with_note 0xAA).disk) × (after_read.fat_table ≡ (with_note 0xAA).fat_table)
read_disk_example = read_disk (request note txt 10240) (with_note 0xAA) after_read (pos 0) read_runs

read_missing_example :
    read (request note txt 10240) (create_fat32 blank)
    ≡ reply
        (pos 2)
        (record (create_fat32 blank) { dir_table_buf = read_table (create_fat32 blank).disk 2 })
read_missing_example =
    read_missing (request note txt 10240) (create_fat32 blank) note-IsRequest
      (subst (All IsEntry) (sym formatted_root)
        (omega arith, All-replicate IsEntry 63 zero_entry-IsEntry))
      (subst (All (λ e. ¬ NameExt (request note txt 10240) e)) (sym formatted_root) (
        root_entry-ne,
        All-replicate (λ e. ¬ NameExt (request note txt 10240) e) 63 {a = zero_entry} zero_entry-ne,
      ))

read_directory_first_match_example :
    read_directory (request docs txt 0) (with_root (root_with (docs_at 3)))
    ≡ read_directory_entry
        (request docs txt 0)
        (docs_at 3)
        (record (with_root (root_with (docs_at 3))) { dir_table_buf = root_with (docs_at 3) })
unfolding create_fat32
read_directory_first_match_example =
    read_directory_first_match (request docs txt 0)
      (record {
        name = refl;
        ext = refl;
        name_bytes = omega arith;
        ext_bytes = omega arith;
        parent = omega arith;
        size = omega arith;
      })
      (with_root (root_with (docs_at 3))) 0x0FFFFFFF (root_entry ∷ []) (docs_at 3)
      (replicate 62 zero_entry) refl (omega arith)
      (root_with-IsTable (docs_at 3) (omega arith)).entries
      (with_root_table (root_with (docs_at 3)) (root_with-IsTable (docs_at 3) (omega arith)))
      ((λ h. ground arith), tt) (refl, refl)

write_duplicate_example :
    write (request note txt 10240) (with_note 0)
    ≡ reply (pos 1) (record (with_note 0) {
      dir_table_buf = read_table (with_note 0).disk 2;
      fat_table = read_fat (with_note 0).disk;
    })
unfolding free_cluster find_empty
write_duplicate_example =
    write_duplicate (request note txt 10240) (with_note 0) 0x0FFFFFFF 3 1 (note_entry 0)
      note-IsRequest (omega arith) (rw (with_root_fat (root_with (note_entry 0))) refl)
      (omega arith) (rw (with_root_fat (root_with (note_entry 0))) refl) (omega arith)
      (rw (with_note_table 0 (omega arith)) refl) refl refl

write_directory_never_exists_example : pos 0 ≢ pos 1
write_directory_never_exists_example =
    write_directory_never_exists (request docs (0 ∷ 0 ∷ 0 ∷ []) 0) (create_fat32 blank)
      write_creates_directory_example.0 (pos 0) refl write_creates_directory_example.1

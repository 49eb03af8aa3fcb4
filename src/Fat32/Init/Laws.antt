-- ===== src/Fat32/Init/Laws.antt =====
-- After formatting the storage is recognised, and starting up again changes nothing on it.
use os_2024_operatingstress.Base.{
  ℕ, ◌*◌, ◌%◌, ◌/◌, some, [], ◌∷◌, take, get_elem?, get_elem?-set_self, get_elem?-set_ne,
  length-set, replicate, ◌^◌, ◌<◌, ◌≡◌, refl, ap, ◌∙◌, inl, inr, false, not, List, arith,
  Bool-cases, length, set, length-take, All, All-take, All-replicate,
}
use os_2024_operatingstress.Disk.{Storage, read_blocks}
use os_2024_operatingstress.Disk.Laws.{read_blocks-write_blocks, read_blocks_apart}
use os_2024_operatingstress.Disk.Invariant.{write_blocks-IsStorage}
use os_2024_operatingstress.Fat32.Types.{DirectoryEntry, IsTable, IsFat, IsEntry}
use os_2024_operatingstress.Fat32.Codec.{encode_table, encode_fat}
use os_2024_operatingstress.Fat32.Driver.{
  DriverState, read_clusters, read_table, write_table, read_fat, write_fat, write_clusters,
}
use os_2024_operatingstress.Fat32.Driver.Laws.{
  same_bytes_iff, read_table-write_table, read_fat-write_fat, read_clusters-write_table,
  read_clusters-write_fat, read_fat_cong,
}
use os_2024_operatingstress.Fat32.Driver.Invariant.{
  IsState, set-IsFat, write_fat-IsStorage, write_table-IsStorage,
}
use os_2024_operatingstress.Fat32.Init.{
  fs_signature, zero_entry, zero_table, init_entry, init_directory_table, is_empty_storage,
  root_name, root_table, initial_fat, create_fat32, initialize_filesystem_fat32,
}

-- The first block is apart from every cluster but number 0.
boot_write_clusters :
    (bs : List ℕ) (c : ℕ) (d : Storage)
    → 0 < c
    → c < 2 ^ 30
    → read_blocks (write_clusters bs c d) 0 1 ≡ read_blocks d 0 1
unfolding write_clusters
boot_write_clusters bs c d h k = read_blocks_apart 4 (c * 4 % 2 ^ 32) 1 0 d bs (inl (omega arith))

boot_create : (s : DriverState) → read_blocks (create_fat32 s).disk 0 1 ≡ fs_signature
unfolding create_fat32 write_table write_fat
boot_create s =
    boot_write_clusters (encode_table root_table) 2 _ (omega arith) (omega arith)
    ∙ (boot_write_clusters (encode_fat (initial_fat s.fat_table)) 1 _ (omega arith) (omega arith)
        ∙ read_blocks-write_blocks 1 0 s.disk fs_signature refl)

-- A formatted storage carries the signature.
pub create_fat32_not_empty : (s : DriverState) → is_empty_storage (create_fat32 s).disk ≡ false
unfolding is_empty_storage
create_fat32_not_empty s = ap not (
    (same_bytes_iff 512 (read_blocks (create_fat32 s).disk 0 1) fs_signature
        (ap length (boot_create s)) refl).1
      (boot_create s))

initial_fat-IsFat : (fat : List ℕ) → IsFat fat → IsFat (initial_fat fat)
initial_fat-IsFat fat v =
    set-IsFat (set (set fat 0 0x0FFFFFF0) 1 0x0FFFFFFF) 2 0x0FFFFFFF
      (set-IsFat (set fat 0 0x0FFFFFF0) 1 0x0FFFFFFF (set-IsFat fat 0 0x0FFFFFF0 v (omega arith))
        (omega arith))
      (omega arith)

signature-bytes : All (λ b. b < 256) fs_signature
signature-bytes = omega arith

zero_entry-IsEntry : IsEntry zero_entry
zero_entry-IsEntry = omega arith

pub init_entry-IsEntry :
    (name : List ℕ) (c : ℕ)
    → length name ≡ 8
    → All (λ b. b < 256) name
    → IsEntry (init_entry zero_entry name c)
unfolding init_entry
init_entry-IsEntry name c n b = record {
  name = length-take 8 name (omega arith);
  ext = refl;
  name_bytes = All-take (λ b. b < 256) 8 name b;
  ext_bytes = omega arith;
  attribute = omega arith;
  user_attribute = omega arith;
  undelete = omega arith;
  create_time = omega arith;
  create_date = omega arith;
  access_date = omega arith;
  cluster_high = omega arith;
  modified_time = omega arith;
  modified_date = omega arith;
  cluster_low = omega arith;
  filesize = omega arith;
}

-- The table of a new directory has its sizes.
pub init_directory_table-IsTable :
    (name : List ℕ) (c : ℕ)
    → length name ≡ 8
    → All (λ b. b < 256) name
    → IsTable (init_directory_table zero_table name c)
unfolding init_directory_table
init_directory_table-IsTable name c n b = record {
  size = refl;
  entries = (init_entry-IsEntry name c n b, All-replicate IsEntry 63 zero_entry-IsEntry);
}

root_table-IsTable : IsTable root_table
root_table-IsTable = init_directory_table-IsTable root_name 2 refl (omega arith)

-- The entry of a directory in cluster `c`, as its own table and its parent's hold it.
abbrev pub directory_entry : List ℕ → ℕ → DirectoryEntry
directory_entry name c = record {
  name = take 8 name;
  ext = 0 ∷ 0 ∷ 0 ∷ [];
  attribute = 0x10;
  user_attribute = 0xAA;
  undelete = 0;
  create_time = 0;
  create_date = 0;
  access_date = 0;
  cluster_high = c / 2 ^ 16 % 2 ^ 16;
  modified_time = 0;
  modified_date = 0;
  cluster_low = c % 2 ^ 16;
  filesize = 0;
}

-- The disk and the state after formatting, in the code's terms.
pub create_fat32_lem :
    (s : DriverState)
    → IsState s
    → (is_empty_storage (create_fat32 s).disk ≡ false)
      × (read_fat (create_fat32 s).disk ≡ (create_fat32 s).fat_table)
      × (read_table (create_fat32 s).disk 2 ≡ root_table)
      × IsState (create_fat32 s)
unfolding create_fat32
create_fat32_lem s v = (
  create_fat32_not_empty s,
  read_fat_cong _ _
        (read_clusters-write_table root_table 2 1 _ (omega arith) (omega arith) (omega arith))
      ∙ read_fat-write_fat (initial_fat s.fat_table) _ fat,
  read_table-write_table root_table 2 _ root_table-IsTable,
  record {
    memory = v.memory;
    disk = write_table-IsStorage root_table 2 _ root_table-IsTable (
        write_fat-IsStorage (initial_fat s.fat_table) _ fat
          (write_blocks-IsStorage 1 0 s.disk fs_signature refl signature-bytes v.disk));
    fat = fat;
    table = v.table;
  },
)
  where
    fat : IsFat (initial_fat s.fat_table)
    fat = initial_fat-IsFat s.fat_table v.fat

-- Formatting a well-formed state: the disk is no longer empty storage; cluster 2 holds a directory
-- table whose first entry is the directory "ROOT" in cluster 2, in use, and whose other entries are
-- zero; the allocation table on the disk is the cached one, with the two reserved values, the end
-- of the root's chain, and behind them what the cached table held; every other cluster but 0 is as
-- before, and so is memory; the state is well formed.
pub create_fat32_formats :
    (s : DriverState)
    → IsState s
    → (is_empty_storage (create_fat32 s).disk ≡ false)
      × (read_table (create_fat32 s).disk 2
          ≡ directory_entry (82 ∷ 79 ∷ 79 ∷ 84 ∷ 0 ∷ 0 ∷ 0 ∷ 0 ∷ []) 2 ∷ replicate 63 zero_entry)
      × (read_fat (create_fat32 s).disk ≡ (create_fat32 s).fat_table)
      × (get_elem? (create_fat32 s).fat_table 0 ≡ some 0x0FFFFFF0)
      × (get_elem? (create_fat32 s).fat_table 1 ≡ some 0x0FFFFFFF)
      × (get_elem? (create_fat32 s).fat_table 2 ≡ some 0x0FFFFFFF)
      × ((k : ℕ) → 2 < k → get_elem? (create_fat32 s).fat_table k ≡ get_elem? s.fat_table k)
      × ((k : ℕ) → 2 < k → k < 512 → read_clusters (create_fat32 s).disk k ≡ read_clusters s.disk k)
      × ((create_fat32 s).memory ≡ s.memory)
      × IsState (create_fat32 s)
unfolding create_fat32 init_directory_table init_entry read_clusters
create_fat32_formats s v =
    let (signed, cached, root, valid) = create_fat32_lem s v in
    let fat = s.fat_table in
    let one = set fat 0 0x0FFFFFF0 in
    let two = set one 1 0x0FFFFFFF in
    let n1 = length-set fat 0 0x0FFFFFF0 in
    let n2 = length-set one 1 0x0FFFFFFF in
    let n = v.fat.size in
    (
      signed,
      root,
      cached,
      get_elem?-set_ne two 2 0 0x0FFFFFFF (omega arith)
          ∙ (get_elem?-set_ne one 1 0 0x0FFFFFFF (omega arith)
              ∙ get_elem?-set_self fat 0 0x0FFFFFF0 (omega arith)),
      get_elem?-set_ne two 2 1 0x0FFFFFFF (omega arith)
          ∙ get_elem?-set_self one 1 0x0FFFFFFF (omega (arith, n1)),
      get_elem?-set_self two 2 0x0FFFFFFF (omega (arith, n1, n2)),
      λ k lt.
          get_elem?-set_ne two 2 k 0x0FFFFFFF (omega arith)
          ∙ (get_elem?-set_ne one 1 k 0x0FFFFFFF (omega arith)
              ∙ get_elem?-set_ne fat 0 k 0x0FFFFFF0 (omega arith)),
      λ k lt inside.
          read_clusters-write_table root_table 2 k _ (omega arith) (omega arith) (omega arith)
          ∙ (read_clusters-write_fat (initial_fat fat) k _ (omega arith) (omega arith)
              ∙ read_blocks_apart 1 0 4 (k * 4 % 2 ^ 32) s.disk fs_signature (inr (omega arith))),
      refl,
      valid,
    )

pub initialize_formatted :
    (s : DriverState)
    → is_empty_storage s.disk ≡ false
    → initialize_filesystem_fat32 s ≡ record s { fat_table = read_fat s.disk }
unfolding initialize_filesystem_fat32
initialize_formatted s h = rw h

-- Starting the file system of a well-formed state leaves a disk that is not empty storage and whose
-- allocation table is the cached one, and starting it again changes nothing.
pub initialize-initialize :
    (s : DriverState)
    → IsState s
    → (is_empty_storage (initialize_filesystem_fat32 s).disk ≡ false)
      × (read_fat (initialize_filesystem_fat32 s).disk ≡ (initialize_filesystem_fat32 s).fat_table)
      × (initialize_filesystem_fat32 (initialize_filesystem_fat32 s)
          ≡ initialize_filesystem_fat32 s)
unfolding initialize_filesystem_fat32
initialize-initialize s v = elim (Bool-cases (is_empty_storage s.disk)) [
  | inl e ↦
      let (signed, cached, root, valid) = create_fat32_lem s v in
      rw e (signed, cached, rw signed (ap (λ f. record (create_fat32 s) { fat_table = f }) cached))
  | inr e ↦ rw e (e, refl, rw e)
]

-- On a storage that is formatted already, a start writes nothing.
pub initialize_keeps_disk :
    (s : DriverState)
    → is_empty_storage s.disk ≡ false
    → (initialize_filesystem_fat32 s).disk ≡ s.disk
initialize_keeps_disk s h = ap (λ (t : DriverState). t.disk) (initialize_formatted s h)

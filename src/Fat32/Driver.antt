-- ===== src/Fat32/Driver.antt =====
-- `struct FAT32DriverState` with the disk and the memory around it, and the helpers of fat32.c that
-- all operations use. `cluster_buf` is never touched by the code and has no field. An access
-- outside an array of the driver is a fault, `none`.
pub mod Laws
pub mod Invariant
use os_2024_operatingstress.Base.{
  ℕ, zero, suc, ◌+◌, ◌-◌, ◌*◌, ◌/◌, ◌%◌, ◌^◌, Bool, Option, none, some, List, [], ◌∷◌, ◌++◌, ltb,
  leb, ◌==◌, ◌&&◌, if◌then◌else◌, get_elem?, get_or, set, length, drop, ℤ, pos, negsuc, true, false,
}
use os_2024_operatingstress.Strings.{Memory, memcmp}
use os_2024_operatingstress.Disk.{Storage, read_blocks, write_blocks}
use os_2024_operatingstress.Fat32.Types.{
  DirectoryEntry, DirectoryTable, cluster_block_count, entry_count, uattr_not_empty,
  cluster_map_size, root_cluster_number, fat_cluster_number,
}
use os_2024_operatingstress.Fat32.Codec.{encode_table, decode_table, encode_fat, decode_fat}

pub record DriverState : Type 0 where
  pub memory : Memory
  pub disk : Storage
  pub fat_table : List ℕ
  pub dir_table_buf : DirectoryTable

-- What an operation answers: its `int8_t` code and the state it leaves, or a fault.
abbrev pub Reply : Type 0
Reply = Option (ℤ × DriverState)

abbrev pub reply : ℤ → DriverState → Reply
reply code s = some (code, s)

-- `cluster_number * 4` is computed in `uint32_t`.
abbrev pub cluster_lba : ℕ → ℕ
cluster_lba cluster_number = cluster_number * 4 % 2 ^ 32

-- One cluster: every call in fat32.c has `cluster_count` 1.
unfoldable pub read_clusters : Storage → ℕ → List ℕ
read_clusters d cluster_number = read_blocks d (cluster_lba cluster_number) 4

unfoldable pub write_clusters : List ℕ → ℕ → Storage → Storage
write_clusters bs cluster_number d = write_blocks d (cluster_lba cluster_number) 4 bs

-- `read_clusters(&dir_table_buf, …)` and the like, through the layout of the structures.
unfoldable pub read_table : Storage → ℕ → DirectoryTable
read_table d cluster_number = decode_table 64 (read_clusters d cluster_number)

unfoldable pub write_table : DirectoryTable → ℕ → Storage → Storage
write_table t cluster_number d = write_clusters (encode_table t) cluster_number d

unfoldable pub read_fat : Storage → List ℕ
read_fat d = decode_fat 512 (read_clusters d fat_cluster_number)

unfoldable pub write_fat : List ℕ → Storage → Storage
write_fat fat d = write_clusters (encode_fat fat) fat_cluster_number d

-- `pembilang / penyebut`, rounded up.
unfoldable pub divceil : ℕ → ℕ → ℕ
divceil pembilang penyebut =
    if pembilang % penyebut == 0 then pembilang / penyebut else (pembilang / penyebut + 1) % 2 ^ 32

-- `!memcmp(a, b, n)`; both arrays have at least `n` bytes wherever this is used.
unfoldable pub same_bytes : List ℕ → List ℕ → ℕ → Bool
same_bytes a b n = elim (memcmp a b n) [
  | none ↦ false
  | some r ↦ elim r [ pos k ↦ k == 0 | negsuc k ↦ false ]
]

-- `entry.user_attribute == UATTR_NOT_EMPTY`
abbrev pub is_used : DirectoryEntry → Bool
is_used e = e.user_attribute == uattr_not_empty

unfoldable pub is_dir_table_valid : DriverState → Bool
is_dir_table_valid s = elim s.dir_table_buf [ [] ↦ false | e ∷ es ↦ is_used e ]

-- `bs` stored from address `p` on.
unfoldable pub store_bytes : Memory → ℕ → List ℕ → Memory
store_bytes m p bs a = if leb p a && ltb a (p + length bs) then get_or bs (a - p) 0 else m a

-- The `n` bytes from address `p` on.
unfoldable pub load_bytes : Memory → ℕ → ℕ → List ℕ
load_bytes m p zero = []
load_bytes m p (suc n) = m p ∷ load_bytes m (p + 1) n

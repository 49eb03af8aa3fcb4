-- ===== src/Fat32/Types.antt =====
-- The constants and structures of header/filesystem/fat32.h. Arrays of bytes are lists; an integer
-- field is its value.
use os_2024_operatingstress.Base.{ℕ, List, ◌^◌, ◌<◌, ◌≡◌, length, All}

abbrev pub cluster_block_count : ℕ
cluster_block_count = 4

abbrev pub cluster_size : ℕ
cluster_size = 2048

abbrev pub cluster_map_size : ℕ
cluster_map_size = 512

abbrev pub cluster_0_value : ℕ
cluster_0_value = 0x0FFFFFF0

abbrev pub cluster_1_value : ℕ
cluster_1_value = 0x0FFFFFFF

abbrev pub fat32_fat_end_of_file : ℕ
fat32_fat_end_of_file = 0x0FFFFFFF

abbrev pub fat32_fat_empty_entry : ℕ
fat32_fat_empty_entry = 0

abbrev pub fat_cluster_number : ℕ
fat_cluster_number = 1

abbrev pub root_cluster_number : ℕ
root_cluster_number = 2

abbrev pub attr_subdirectory : ℕ
attr_subdirectory = 0b00010000

abbrev pub uattr_not_empty : ℕ
uattr_not_empty = 0b10101010

-- `struct FAT32DirectoryEntry`
pub record DirectoryEntry : Type 0 where
  pub name : List ℕ
  pub ext : List ℕ
  pub attribute : ℕ
  pub user_attribute : ℕ
  pub undelete : ℕ
  pub create_time : ℕ
  pub create_date : ℕ
  pub access_date : ℕ
  pub cluster_high : ℕ
  pub modified_time : ℕ
  pub modified_date : ℕ
  pub cluster_low : ℕ
  pub filesize : ℕ

-- `struct FAT32DirectoryTable`: 64 entries in one cluster.
abbrev pub DirectoryTable : Type 0
DirectoryTable = List DirectoryEntry

abbrev pub entry_count : ℕ
entry_count = 64

-- `struct FAT32DriverRequest`; `buf` is an address.
pub record DriverRequest : Type 0 where
  pub buf : ℕ
  pub name : List ℕ
  pub ext : List ℕ
  pub parent_cluster_number : ℕ
  pub buffer_size : ℕ

-- The sizes that the structures declare.
pub record IsEntry (e : DirectoryEntry) : Type 0 where
  pub name : length e.name ≡ 8
  pub ext : length e.ext ≡ 3
  pub name_bytes : All (λ b. b < 256) e.name
  pub ext_bytes : All (λ b. b < 256) e.ext
  pub attribute : e.attribute < 256
  pub user_attribute : e.user_attribute < 256
  pub undelete : e.undelete < 256
  pub create_time : e.create_time < 2 ^ 16
  pub create_date : e.create_date < 2 ^ 16
  pub access_date : e.access_date < 2 ^ 16
  pub cluster_high : e.cluster_high < 2 ^ 16
  pub modified_time : e.modified_time < 2 ^ 16
  pub modified_date : e.modified_date < 2 ^ 16
  pub cluster_low : e.cluster_low < 2 ^ 16
  pub filesize : e.filesize < 2 ^ 32

pub record IsTable (t : DirectoryTable) : Type 0 where
  pub size : length t ≡ 64
  pub entries : All IsEntry t

pub record IsFat (fat : List ℕ) : Type 0 where
  pub size : length fat ≡ 512
  pub entries : All (λ v. v < 2 ^ 32) fat

pub record IsRequest (r : DriverRequest) : Type 0 where
  pub name : length r.name ≡ 8
  pub ext : length r.ext ≡ 3
  pub name_bytes : All (λ b. b < 256) r.name
  pub ext_bytes : All (λ b. b < 256) r.ext
  pub parent : r.parent_cluster_number < 2 ^ 32
  pub size : r.buffer_size < 2 ^ 32

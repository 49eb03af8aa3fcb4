-- ===== src/Fat32/Init.antt =====
-- Formatting and start-up: `fs_signature`, `is_empty_storage`, `create_fat32`,
-- `initialize_filesystem_fat32` and `init_directory_table` of fat32.c.
pub mod Laws
use os_2024_operatingstress.Base.{
  ℕ, ◌/◌, ◌%◌, ◌^◌, Bool, not, List, [], ◌∷◌, ◌++◌, if◌then◌else◌, set, replicate, take,
}
use os_2024_operatingstress.Disk.{Storage, block_size, read_blocks, write_blocks}
use os_2024_operatingstress.Fat32.Types.{
  DirectoryEntry, DirectoryTable, attr_subdirectory, uattr_not_empty, cluster_0_value,
  cluster_1_value, fat32_fat_end_of_file,
}
use os_2024_operatingstress.Fat32.Driver.{DriverState, same_bytes, read_fat, write_fat, write_table}

-- "Course", "Designed by", "Lab Sister ITB", "Made with <3" and "-----------2024" in 16 columns
-- each, then zeros up to the "Ok" at the end of the block.
abbrev pub fs_signature : List ℕ
fs_signature =
    67
    ∷ 111
    ∷ 117
    ∷ 114
    ∷ 115
    ∷ 101
    ∷ 32
    ∷ 32
    ∷ 32
    ∷ 32
    ∷ 32
    ∷ 32
    ∷ 32
    ∷ 32
    ∷ 32
    ∷ 32
    ∷ 68
    ∷ 101
    ∷ 115
    ∷ 105
    ∷ 103
    ∷ 110
    ∷ 101
    ∷ 100
    ∷ 32
    ∷ 98
    ∷ 121
    ∷ 32
    ∷ 32
    ∷ 32
    ∷ 32
    ∷ 32
    ∷ 76
    ∷ 97
    ∷ 98
    ∷ 32
    ∷ 83
    ∷ 105
    ∷ 115
    ∷ 116
    ∷ 101
    ∷ 114
    ∷ 32
    ∷ 73
    ∷ 84
    ∷ 66
    ∷ 32
    ∷ 32
    ∷ 77
    ∷ 97
    ∷ 100
    ∷ 101
    ∷ 32
    ∷ 119
    ∷ 105
    ∷ 116
    ∷ 104
    ∷ 32
    ∷ 60
    ∷ 51
    ∷ 32
    ∷ 32
    ∷ 32
    ∷ 32
    ∷ 45
    ∷ 45
    ∷ 45
    ∷ 45
    ∷ 45
    ∷ 45
    ∷ 45
    ∷ 45
    ∷ 45
    ∷ 45
    ∷ 45
    ∷ 50
    ∷ 48
    ∷ 50
    ∷ 52
    ∷ 10
    ∷ (replicate 430 0 ++ 79 ∷ 107 ∷ [])

-- A structure that is all zero.
abbrev pub zero_entry : DirectoryEntry
zero_entry = record {
  name = replicate 8 0;
  ext = replicate 3 0;
  attribute = 0;
  user_attribute = 0;
  undelete = 0;
  create_time = 0;
  create_date = 0;
  access_date = 0;
  cluster_high = 0;
  modified_time = 0;
  modified_date = 0;
  cluster_low = 0;
  filesize = 0;
}

abbrev pub zero_table : DirectoryTable
zero_table = replicate 64 zero_entry

-- Entry 0 becomes the directory itself; the rest of the table stays.
unfoldable pub init_entry : DirectoryEntry → List ℕ → ℕ → DirectoryEntry
init_entry e name parent_dir_cluster = record e {
  cluster_high = parent_dir_cluster / 2 ^ 16 % 2 ^ 16;
  cluster_low = parent_dir_cluster % 2 ^ 16;
  name = take 8 name;
  attribute = attr_subdirectory;
  user_attribute = uattr_not_empty;
}

unfoldable pub init_directory_table : DirectoryTable → List ℕ → ℕ → DirectoryTable
init_directory_table [] name parent_dir_cluster = []
init_directory_table (e ∷ es) name parent_dir_cluster = init_entry e name parent_dir_cluster ∷ es

unfoldable pub is_empty_storage : Storage → Bool
is_empty_storage d = not (same_bytes (read_blocks d 0 1) fs_signature block_size)

-- "ROOT" and four zeros
abbrev pub root_name : List ℕ
root_name = 82 ∷ 79 ∷ 79 ∷ 84 ∷ 0 ∷ 0 ∷ 0 ∷ 0 ∷ []

abbrev pub root_table : DirectoryTable
root_table = init_directory_table zero_table root_name 2

-- The three entries are set in whatever the cached table holds.
abbrev pub initial_fat : List ℕ → List ℕ
initial_fat fat = set (set (set fat 0 cluster_0_value) 1 cluster_1_value) 2 fat32_fat_end_of_file

unfoldable pub create_fat32 : DriverState → DriverState
create_fat32 s =
    let fat : List ℕ = initial_fat s.fat_table in
    record s {
      fat_table = fat;
      disk = write_table root_table 2 (write_fat fat (write_blocks s.disk 0 1 fs_signature));
    }

unfoldable pub initialize_filesystem_fat32 : DriverState → DriverState
initialize_filesystem_fat32 s =
    if is_empty_storage s.disk then create_fat32 s else record s { fat_table = read_fat s.disk }

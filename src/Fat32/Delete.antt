-- ===== src/Fat32/Delete.antt =====
-- `delete` of fat32.c.
pub mod Laws
pub mod Directory
pub mod File
pub mod Valid
use os_2024_operatingstress.Base.{
  ℕ, zero, suc, ◌+◌, ◌*◌, ◌%◌, ◌^◌, Bool, true, false, Option, none, some, List, [], ◌∷◌, ltb, ◌==◌,
  ◌||◌, if◌then◌else◌, get_elem?, set, drop, length, not, ℤ, pos, negsuc, ◌>>=◌,
}
use os_2024_operatingstress.Strings.{strlen, memcmp}
use os_2024_operatingstress.Fat32.Types.{
  DirectoryEntry, DirectoryTable, DriverRequest, cluster_size, fat32_fat_empty_entry,
}
use os_2024_operatingstress.Fat32.Codec.{encode_table, request_bytes}
use os_2024_operatingstress.Fat32.Driver.{
  DriverState, Reply, reply, read_table, write_table, write_fat, divceil, same_bytes, is_used,
}

-- `c == 0`
abbrev pub is_zero : ℤ → Bool
is_zero (pos n) = n == 0
is_zero (negsuc n) = false

-- `memcmp(filename, table[i].name, strlen(table[i].name)) == 0` for the first of `es`: neither
-- array ends in a zero byte by itself, so both are read on through the packed structures.
unfoldable pub matches_name : DriverRequest → DirectoryTable → Option Bool
matches_name r es = strlen (encode_table es) >>= λ k.
    memcmp (request_bytes r) (encode_table es) k >>= λ c. some (is_zero c)

-- `user_attribute = !UATTR_NOT_EMPTY` is 0.
abbrev pub mark_deleted : DirectoryEntry → DirectoryEntry
mark_deleted e = record e { user_attribute = 0; undelete = 1 }

-- `cluster_map[cluster] = 0`
unfoldable pub clear_cluster : List ℕ → ℕ → Option (List ℕ)
clear_cluster fat cluster = if ltb cluster (length fat) then some (set fat cluster 0) else none

-- `to_zeros`: `n` clusters along the chain from `current_cluster` on.
unfoldable pub chain_clusters : ℕ → ℕ → List ℕ → Option (List ℕ)
chain_clusters zero current_cluster fat = some []
chain_clusters (suc n) current_cluster fat = get_elem? fat current_cluster >>= λ next.
    chain_clusters n (next % 2 ^ 16) fat >>= λ rest. some (current_cluster ∷ rest)

unfoldable pub clear_clusters : List ℕ → List ℕ → Option (List ℕ)
clear_clusters [] fat = some fat
clear_clusters (c ∷ cs) fat = clear_cluster fat c >>= λ fat'. clear_clusters cs fat'

-- Some entry is in use.
unfoldable pub any_used : DirectoryTable → Bool
any_used [] = false
any_used (e ∷ es) = is_used e || any_used es

unfoldable pub delete_directory : DriverRequest → ℕ → DirectoryEntry → DriverState → Reply
delete_directory r i e s =
    if any_used (drop 1 (read_table s.disk e.cluster_low))
    then reply (pos 2) s
    else clear_cluster s.fat_table e.cluster_low >>= λ fat.
        let table : DirectoryTable = set s.dir_table_buf i (mark_deleted e) in
        reply (pos 0) (record s {
          fat_table = fat;
          dir_table_buf = table;
          disk = write_fat fat (write_table table r.parent_cluster_number s.disk);
        })

unfoldable pub delete_file : DriverRequest → ℕ → DirectoryEntry → DriverState → Reply
delete_file r i e s =
    let table : DirectoryTable = set s.dir_table_buf i (mark_deleted e) in
    chain_clusters (divceil e.filesize cluster_size % 2 ^ 16) e.cluster_low s.fat_table
    >>= λ to_zeros. clear_clusters to_zeros s.fat_table >>= λ fat. reply (pos 0) (record s {
      fat_table = fat;
      dir_table_buf = table;
      disk = write_fat fat (write_table table r.parent_cluster_number s.disk);
    })

-- A used entry whose name matches; `rest` is what the loop does after `continue`.
unfoldable pub delete_entry : DriverRequest → ℕ → DirectoryEntry → DriverState → Reply → Reply
delete_entry r i e s rest =
    if not (e.attribute == 0)
    then delete_directory r i e s
    else if same_bytes e.ext r.ext 3
    then delete_file r i e s
    else rest

-- The loop from index `i` on, over the entries that are left.
unfoldable pub delete_scan : DriverRequest → ℕ → DirectoryTable → DriverState → Reply
delete_scan r i [] s = reply (pos 1) s
delete_scan r i (e ∷ es) s =
    let rest : Reply = delete_scan r (i + 1) es s in
    if is_used e
    then (matches_name r (e ∷ es) >>= λ found. if found then delete_entry r i e s rest else rest)
    else rest

unfoldable pub delete : DriverRequest → DriverState → Reply
delete r s =
    let table : DirectoryTable = read_table s.disk r.parent_cluster_number in
    delete_scan r 1 (drop 1 table) (record s { dir_table_buf = table })

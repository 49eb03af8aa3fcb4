-- ===== src/Fat32/Read.antt =====
-- `read` and `read_directory` of fat32.c.
pub mod Laws
pub mod Keeps
pub mod Chain
pub mod Valid
use os_2024_operatingstress.Base.{
  ℕ, zero, suc, ◌+◌, ◌*◌, ◌%◌, ◌^◌, Bool, Option, none, some, List, [], ◌∷◌, ltb, leb, ◌==◌, ◌&&◌,
  if◌then◌else◌, get_elem?, ℤ, pos, negsuc, bit_and, bit_or,
}
use os_2024_operatingstress.Fat32.Types.{
  DirectoryEntry, DirectoryTable, DriverRequest, attr_subdirectory, cluster_size,
  fat32_fat_empty_entry,
}
use os_2024_operatingstress.Fat32.Driver.{
  DriverState, Reply, reply, read_clusters, read_table, divceil, same_bytes, is_used, store_bytes,
}

-- `read_clusters(ptr, cluster, 1)` into the caller's memory.
abbrev pub load_cluster : ℕ → ℕ → DriverState → DriverState
load_cluster ptr cluster s = record s {
  memory = store_bytes s.memory ptr (read_clusters s.disk cluster);
}

-- The loop over `j`, `n` rounds left; it stops early at the end of the chain.
unfoldable pub read_chain : ℕ → ℕ → ℕ → ℕ → DriverState → Option DriverState
read_chain zero j cluster buf s = some s
read_chain (suc n) j cluster buf s =
    let loaded : DriverState = load_cluster (buf + j * cluster_size) cluster s in
    elim (get_elem? s.fat_table cluster) [
      | none ↦ none
      | some next ↦
          let rest = read_chain n (j + 1) (next % 2 ^ 16) buf loaded in
          if leb 0xFFF8 (next % 2 ^ 16) then some loaded else rest
    ]

-- `memcmp` of both names
unfoldable pub matches_file : DriverRequest → DirectoryEntry → Bool
matches_file r e = same_bytes e.name r.name 8 && same_bytes e.ext r.ext 3

abbrev pub first_cluster : DirectoryEntry → ℕ
first_cluster e = bit_or e.cluster_low (2 ^ 16 * e.cluster_high) % 2 ^ 16

unfoldable pub read_entry : DriverRequest → DirectoryEntry → DriverState → Reply
read_entry r e s =
    if bit_and e.attribute attr_subdirectory == 0
    then (if ltb r.buffer_size e.filesize
        then reply (negsuc 0) s
        else elim (read_chain (divceil e.filesize cluster_size % 2 ^ 16) 0 (first_cluster e) r.buf
            s) [ none ↦ none | some s' ↦ reply (pos 0) s' ])
    else reply (pos 1) s

unfoldable pub read_scan : DriverRequest → DirectoryTable → DriverState → Reply
read_scan r [] s = reply (pos 2) s
read_scan r (e ∷ es) s = if matches_file r e then read_entry r e s else read_scan r es s

unfoldable pub read : DriverRequest → DriverState → Reply
read r s =
    let table : DirectoryTable = read_table s.disk r.parent_cluster_number in
    read_scan r table (record s { dir_table_buf = table })

unfoldable pub read_directory_entry : DriverRequest → DirectoryEntry → DriverState → Reply
read_directory_entry r e s =
    if e.attribute == attr_subdirectory
    then reply (pos 0) (load_cluster r.buf e.cluster_low s)
    else reply (pos 1) s

pub read_directory_scan : DriverRequest → DirectoryTable → DriverState → Reply
read_directory_scan r [] s = reply (pos 2) s
read_directory_scan r (e ∷ es) s =
    if is_used e && same_bytes e.name r.name 8
    then read_directory_entry r e s
    else read_directory_scan r es s

unfoldable pub read_directory : DriverRequest → DriverState → Reply
read_directory r s = elim (get_elem? s.fat_table r.parent_cluster_number) [
  | none ↦ none
  | some v ↦
      let table : DirectoryTable = read_table s.disk r.parent_cluster_number in
      if v == fat32_fat_empty_entry
      then reply (pos 2) s
      else read_directory_scan r table (record s { dir_table_buf = table })
]

-- ===== src/Fat32/Write.antt =====
-- `write` of fat32.c.
pub mod Laws
pub mod Refusal
pub mod Directory
pub mod Search
pub mod Slot
pub mod Chain
pub mod File
pub mod Valid
use os_2024_operatingstress.Base.{
  ℕ, zero, suc, ◌+◌, ◌-◌, ◌*◌, ◌/◌, ◌%◌, ◌^◌, Bool, false, not, Option, none, some, List, [], ◌∷◌,
  ◌++◌, ltb, ◌==◌, ◌&&◌, ◌||◌, if◌then◌else◌, get_elem?, get_or, set, drop, replicate, ℤ, pos,
  ◌>>=◌, take,
}
use os_2024_operatingstress.Fat32.Types.{
  DirectoryEntry, DirectoryTable, DriverRequest, cluster_size, fat32_fat_empty_entry,
  fat32_fat_end_of_file, uattr_not_empty, cluster_map_size, cluster_block_count,
}
use os_2024_operatingstress.Fat32.Driver.{
  DriverState, Reply, reply, read_table, write_table, read_fat, write_fat, write_clusters,
  same_bytes, is_used, load_bytes,
}
use os_2024_operatingstress.Fat32.Init.{init_directory_table, zero_table, zero_entry}

-- `while (cluster_map[c] != 0) c++`, over the entries from index `c` on. Past the last entry the
-- source reads outside the table.
unfoldable pub find_empty : List ℕ → ℕ → Option ℕ
find_empty [] c = none
find_empty (v ∷ vs) c = if v == fat32_fat_empty_entry then some c else find_empty vs (c + 1)

-- The loop started at index `c`.
unfoldable pub free_cluster : List ℕ → ℕ → Option ℕ
free_cluster fat c = find_empty (drop c fat) c

-- `while (table[c].user_attribute == UATTR_NOT_EMPTY) c++`
unfoldable pub free_slot : DirectoryTable → ℕ → Option ℕ
free_slot [] c = none
free_slot (e ∷ es) c = if is_used e then free_slot es (c + 1) else some c

-- The check for an equal name: some entry returns 1.
unfoldable pub is_duplicate : DriverRequest → DirectoryTable → Bool
is_duplicate r [] = false
is_duplicate r (e ∷ es) =
    same_bytes e.name r.name 8 && (not (r.buffer_size == 0) && same_bytes e.ext r.ext 3)
    || is_duplicate r es

-- `table[slot] = f(table[slot])`
abbrev pub update_slot : DirectoryTable → ℕ → (DirectoryEntry → DirectoryEntry) → DirectoryTable
update_slot t slot f = elim (get_elem? t slot) [ none ↦ t | some e ↦ set t slot (f e) ]

unfoldable pub write_directory : DriverRequest → ℕ → ℕ → DriverState → Reply
write_directory r cluster slot s =
    let fat : List ℕ = set s.fat_table cluster fat32_fat_end_of_file in
    let dir_baru : DirectoryTable = init_directory_table zero_table r.name cluster in
    let table : DirectoryTable = set s.dir_table_buf slot (get_or dir_baru 0 zero_entry) in
    reply (pos 0) (record s {
      fat_table = fat;
      dir_table_buf = table;
      disk =
          write_table table r.parent_cluster_number
            (write_table dir_baru cluster (write_fat fat s.disk));
    })

-- The fields that are set before the loop; `filesize` and `cluster_high` keep what they held.
unfoldable pub claim_entry : DriverRequest → ℕ → DirectoryEntry → DirectoryEntry
claim_entry r cluster e = record e {
  name = take 8 r.name;
  ext = take 3 r.ext;
  attribute = 0;
  user_attribute = uattr_not_empty;
  cluster_low = cluster % 2 ^ 16;
}

abbrev pub grow : ℕ → DirectoryEntry → DirectoryEntry
grow n e = record e { filesize = (e.filesize + n) % 2 ^ 32 }

-- Round `i` of the loop that is not the last, at the free clusters that it found.
unfoldable pub write_link : DriverRequest → ℕ → ℕ → ℕ → ℕ → DriverState → DriverState
write_link r slot i cluster next_cluster s =
    let fat : List ℕ = set s.fat_table cluster next_cluster in
    record s {
      fat_table = fat;
      dir_table_buf =
          update_slot s.dir_table_buf slot (grow (cluster_map_size * cluster_block_count));
      disk =
          write_fat fat
            (write_clusters (load_bytes s.memory (r.buf + cluster_size * i) 2048) cluster s.disk);
    }

-- The last round: the end of the chain, and the rest of the buffer padded with zeros.
unfoldable pub write_end : DriverRequest → ℕ → ℕ → ℕ → DriverState → DriverState
write_end r slot i cluster s =
    let fat : List ℕ = set s.fat_table cluster fat32_fat_end_of_file in
    let left : ℕ = r.buffer_size - cluster_size * i in
    record s {
      fat_table = fat;
      dir_table_buf = update_slot s.dir_table_buf slot (grow left);
      disk = write_fat fat (
          write_clusters
            (load_bytes s.memory (r.buf + cluster_size * i) left
              ++ replicate (cluster_size - left) 0)
            cluster s.disk);
    }

-- Rounds `i` on, `n` of them left. Both searches run in every round, the last one too.
pub write_chain : ℕ → DriverRequest → ℕ → ℕ → ℕ → DriverState → Option DriverState
write_chain zero r total_cluster slot i s = some s
write_chain (suc n) r total_cluster slot i s = free_cluster s.fat_table 0 >>= λ cluster.
    free_cluster s.fat_table (cluster + 1) >>= λ next_cluster.
    write_chain n r total_cluster slot (i + 1) (
      if ltb i (total_cluster - 1)
      then write_link r slot i cluster next_cluster s
      else write_end r slot i cluster s)

abbrev pub total_clusters : ℕ → ℕ
total_clusters buffer_size =
    if ltb (buffer_size / cluster_size * cluster_size) buffer_size
    then buffer_size / cluster_size + 1
    else buffer_size / cluster_size

unfoldable pub write_file : DriverRequest → ℕ → ℕ → DriverState → Reply
write_file r cluster slot s =
    write_chain (total_clusters r.buffer_size) r (total_clusters r.buffer_size) slot 0
      (record s { dir_table_buf = update_slot s.dir_table_buf slot (claim_entry r cluster) })
    >>= λ s'.
        reply (pos 0)
          (record s' { disk = write_table s'.dir_table_buf r.parent_cluster_number s'.disk })

-- After the parent's check, in the order of the source.
unfoldable pub write_new : DriverRequest → DriverState → Reply
write_new r s = free_cluster s.fat_table 0 >>= λ cluster.
    if is_duplicate r s.dir_table_buf
    then reply (pos 1) s
    else free_slot s.dir_table_buf 0 >>= λ slot.
        if r.buffer_size == 0 then write_directory r cluster slot s else write_file r cluster slot s

unfoldable pub write : DriverRequest → DriverState → Reply
write r s =
    let loaded : DriverState = record s {
      dir_table_buf = read_table s.disk r.parent_cluster_number;
      fat_table = read_fat s.disk;
    } in
    get_elem? loaded.fat_table r.parent_cluster_number >>= λ v.
    if v == fat32_fat_empty_entry then reply (pos 2) loaded else write_new r loaded

-- ===== src/Fat32/Write/Directory.antt =====
-- Creating a directory: what is on the disk afterwards.
use os_2024_operatingstress.Base.{
  ℕ, ◌∷◌, replicate, ◌<◌, ◌≡◌, sym, ap, ◌∙◌, subst, ◌≢◌, some, arith, pos, get_elem?, set,
  get_elem?-some, lt-length_of_some,
}
use os_2024_operatingstress.Disk.{Storage}
use os_2024_operatingstress.Fat32.Types.{DriverRequest, IsTable, IsFat, IsRequest}
use os_2024_operatingstress.Fat32.Driver.{
  DriverState, reply, read_clusters, read_table, write_table, read_fat, write_fat,
}
use os_2024_operatingstress.Fat32.Driver.Laws.{
  read_table-write_table, read_fat-write_fat, read_clusters-write_table, read_clusters-write_fat,
  read_fat_cong, read_table_cong,
}
use os_2024_operatingstress.Fat32.Driver.Invariant.{
  IsState, read_fat-IsFat, read_table-IsTable, set-IsFat, set-IsTable, write_fat-IsStorage,
  write_table-IsStorage,
}
use os_2024_operatingstress.Fat32.Init.{init_directory_table, init_entry, zero_table, zero_entry}
use os_2024_operatingstress.Fat32.Init.Laws.{
  directory_entry, init_entry-IsEntry, init_directory_table-IsTable,
}
use os_2024_operatingstress.Fat32.Write.{free_cluster, free_slot, write_directory, write_new, write}
use os_2024_operatingstress.Fat32.Write.Laws.{write_valid, free_cluster_first}
use os_2024_operatingstress.Fat32.Write.Refusal.{not_duplicate_directory}

-- What a caller that creates a directory in an initialised file system can count on.
pub record CanCreate (r : DriverRequest) (s : DriverState) (cluster slot : ℕ) : Type 0 where
  pub request : IsRequest r
  pub state : IsState s
  pub is_directory : r.buffer_size ≡ 0
  pub parent_in : r.parent_cluster_number < 512
  pub parent_used : get_elem? (read_fat s.disk) r.parent_cluster_number ≢ some 0
  pub parent_apart : r.parent_cluster_number ≢ 1
  pub fat_used : get_elem? (read_fat s.disk) 1 ≢ some 0
  pub cluster_found : free_cluster (read_fat s.disk) 0 ≡ some cluster
  pub slot_found : free_slot (read_table s.disk r.parent_cluster_number) 0 ≡ some slot

-- What the disk holds after it.
pub record Created (r : DriverRequest) (s : DriverState) (cluster slot : ℕ) (s' : DriverState)
    : Type 0 where
  pub fat : read_fat s'.disk ≡ set (read_fat s.disk) cluster 0x0FFFFFFF
  pub inside : cluster < 512
  pub parent :
      read_table s'.disk r.parent_cluster_number
      ≡ set (read_table s.disk r.parent_cluster_number) slot (directory_entry r.name cluster)
  pub table : read_table s'.disk cluster ≡ directory_entry r.name cluster ∷ replicate 63 zero_entry
  pub others :
      (k : ℕ)
      → k < 512
      → k ≢ 1
      → k ≢ cluster
      → k ≢ r.parent_cluster_number
      → read_clusters s'.disk k ≡ read_clusters s.disk k
  pub cached_fat : s'.fat_table ≡ read_fat s'.disk
  pub valid : IsState s'

module _ {r : DriverRequest} {s : DriverState} {cluster slot : ℕ}
    (c : CanCreate r s cluster slot) where
  found_free : get_elem? (read_fat s.disk) cluster ≡ some 0
  found_free = (free_cluster_first (read_fat s.disk) cluster c.cluster_found).0

  cluster-lt : cluster < 512
  cluster-lt = omega (
    arith,
    lt-length_of_some (read_fat s.disk) cluster found_free,
    (read_fat-IsFat s.disk c.state.disk).size,
  )

  cluster-ne-parent : cluster ≢ r.parent_cluster_number
  cluster-ne-parent e =
      c.parent_used (subst (λ k. get_elem? (read_fat s.disk) k ≡ some 0) e found_free)

  cluster-ne-fat : cluster ≢ 1
  cluster-ne-fat e = c.fat_used (subst (λ k. get_elem? (read_fat s.disk) k ≡ some 0) e found_free)

  new_fat-IsFat : IsFat (set (read_fat s.disk) cluster 0x0FFFFFFF)
  new_fat-IsFat =
      set-IsFat (read_fat s.disk) cluster 0x0FFFFFFF (read_fat-IsFat s.disk c.state.disk)
        (omega arith)

  own-IsTable : IsTable (init_directory_table zero_table r.name cluster)
  own-IsTable = init_directory_table-IsTable r.name cluster c.request.name c.request.name_bytes

  parent-IsTable :
      IsTable (
        set (read_table s.disk r.parent_cluster_number) slot (init_entry zero_entry r.name cluster))
  parent-IsTable =
      set-IsTable (read_table s.disk r.parent_cluster_number) slot
        (init_entry zero_entry r.name cluster)
        (read_table-IsTable s.disk r.parent_cluster_number c.state.disk)
        (init_entry-IsEntry r.name cluster c.request.name c.request.name_bytes)

  -- The disk after the three writes, in their order.
  disk_after : Storage
  disk_after =
      write_table
        (set (read_table s.disk r.parent_cluster_number) slot
          (init_entry zero_entry r.name cluster))
        r.parent_cluster_number
        (write_table (init_directory_table zero_table r.name cluster) cluster
          (write_fat (set (read_fat s.disk) cluster 0x0FFFFFFF) s.disk))

  state_after : DriverState
  state_after = record s {
    fat_table = set (read_fat s.disk) cluster 0x0FFFFFFF;
    dir_table_buf =
        set (read_table s.disk r.parent_cluster_number) slot (init_entry zero_entry r.name cluster);
    disk = disk_after;
  }

  write_runs : write r s ≡ reply (pos 0) state_after
  unfolding write_new write_directory disk_after state_after init_directory_table
  write_runs =
      let fresh =
        not_duplicate_directory r (read_table s.disk r.parent_cluster_number) c.is_directory in
      let found =
        get_elem?-some (read_fat s.disk) r.parent_cluster_number
          (omega (arith, (read_fat-IsFat s.disk c.state.disk).size, c.parent_in)) in
      rw (
        write_valid r s found.0 found.1 (λ e. c.parent_used (found.1 ∙ ap some e)),
        c.cluster_found,
        fresh,
        c.slot_found,
        c.is_directory,
      )

  Created-after : Created r s cluster slot state_after
  unfolding disk_after state_after init_entry init_directory_table
  Created-after =
      let lt = cluster-lt in
      let parent_lt = c.parent_in in
      let fat_back : read_fat disk_after ≡ set (read_fat s.disk) cluster 0x0FFFFFFF =
        read_fat_cong _ _ (
          read_clusters-write_table _ r.parent_cluster_number 1 _ (omega arith) (omega arith)
            c.parent_apart
          ∙ read_clusters-write_table _ cluster 1 _ (omega arith) (omega arith) cluster-ne-fat)
        ∙ read_fat-write_fat (set (read_fat s.disk) cluster 0x0FFFFFFF) s.disk new_fat-IsFat in
      record {
        fat = fat_back;
        inside = lt;
        parent = read_table-write_table _ r.parent_cluster_number _ parent-IsTable;
        table =
            read_table_cong _ _ cluster (
              read_clusters-write_table _ r.parent_cluster_number cluster _ (omega arith)
                (omega arith) (λ e. cluster-ne-parent (sym e)))
            ∙ read_table-write_table _ cluster _ own-IsTable;
        others = λ k lt' n1 n2 n3.
            read_clusters-write_table _ r.parent_cluster_number k _ (omega arith) (omega arith)
              (λ e. n3 (sym e))
            ∙ (read_clusters-write_table _ cluster k _ (omega arith) (omega arith) (λ e. n2 (sym e))
                ∙ read_clusters-write_fat _ k s.disk (omega arith) n1);
        cached_fat = sym fat_back;
        valid = record {
          memory = c.state.memory;
          disk = write_table-IsStorage _ r.parent_cluster_number _ parent-IsTable (
              write_table-IsStorage _ cluster _ own-IsTable
                (write_fat-IsStorage _ s.disk new_fat-IsFat c.state.disk));
          fat = new_fat-IsFat;
          table = parent-IsTable;
        };
      }

  -- In a well-formed state whose cluster 1 is in use, for a parent in use below 512 that is not
  -- cluster 1, with a free cluster and a free slot found, creating a directory answers 0. On the
  -- disk the found cluster, which was free, is then the end of a chain; the found slot of the
  -- parent holds a directory's entry in use with the requested name and this cluster; the cluster
  -- holds a table with this entry first and zeros behind it, and every cluster but these and the
  -- allocation table's is as before, and the driver's state is well formed.
  pub write_creates_directory :
      (s' : DriverState) × (write r s ≡ reply (pos 0) s') × Created r s cluster slot s'
  write_creates_directory = (state_after, write_runs, Created-after)

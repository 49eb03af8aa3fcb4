-- ===== src/Fat32/Delete/Valid.antt =====
-- `delete` keeps the driver's state well formed, whatever it answers.
use os_2024_operatingstress.Base.{
  ℕ, ◌+◌, ◌%◌, ◌^◌, ◌≡◌, subst, inl, inr, some, List, [], ◌∷◌, arith, ℤ, pos, Option-cases, set,
  drop, All, All-drop,
}
use os_2024_operatingstress.Fat32.Types.{
  DirectoryEntry, DirectoryTable, DriverRequest, IsEntry, IsFat,
}
use os_2024_operatingstress.Fat32.Driver.{
  DriverState, reply, read_table, write_table, write_fat, divceil,
}
use os_2024_operatingstress.Fat32.Driver.Invariant.{
  IsState, reply-IsState, cached_table-IsState, read_table-IsTable, set-IsFat, set-IsTable,
  write_table-IsStorage, write_fat-IsStorage,
}
use os_2024_operatingstress.Fat32.Delete.{
  delete, delete_scan, delete_entry, delete_directory, delete_file, mark_deleted, clear_cluster,
  clear_clusters, chain_clusters, matches_name,
}
use os_2024_operatingstress.Fat32.Delete.Directory.{mark_deleted-IsEntry}

clear_cluster-IsFat :
    (fat fat' : List ℕ) (c : ℕ) → IsFat fat → clear_cluster fat c ≡ some fat' → IsFat fat'
unfolding clear_cluster
clear_cluster-IsFat fat fat' c v h =
    let same : set fat c 0 ≡ fat' = ground arith in
    subst IsFat same (set-IsFat fat c 0 v (omega arith))

clear_clusters-IsFat :
    (cs fat fat' : List ℕ) → IsFat fat → clear_clusters cs fat ≡ some fat' → IsFat fat'
unfolding clear_clusters
clear_clusters-IsFat [] fat fat' v h = let same : fat ≡ fat' = cc in subst IsFat same v
clear_clusters-IsFat (c ∷ cs) fat fat' v h = elim (Option-cases (clear_cluster fat c)) [
  | inl e ↦ ground (arith, e)
  | inr (f, e) ↦
      clear_clusters-IsFat cs f fat' (clear_cluster-IsFat fat f c v e) (ground (arith, e))
]

module _ (r : DriverRequest) (i : ℕ) (e : DirectoryEntry) (s : DriverState) (v : IsState s)
    (w : IsEntry e) where
  marked : DirectoryTable
  marked = set s.dir_table_buf i (mark_deleted e)

  -- The entry marked in the parent, and both tables on the disk.
  synced : List ℕ → DriverState
  synced fat = record s {
    fat_table = fat;
    dir_table_buf = set s.dir_table_buf i (mark_deleted e);
    disk =
        write_fat fat
          (write_table (set s.dir_table_buf i (mark_deleted e)) r.parent_cluster_number s.disk);
  }

  synced-IsState : (fat : List ℕ) → IsFat fat → IsState (synced fat)
  unfolding synced
  synced-IsState fat f =
      let t = set-IsTable s.dir_table_buf i (mark_deleted e) v.table (mark_deleted-IsEntry e w) in
      record {
        memory = v.memory;
        disk =
            write_fat-IsStorage fat _ f
              (write_table-IsStorage _ r.parent_cluster_number s.disk t v.disk);
        fat = f;
        table = t;
      }

  delete_directory-IsState :
      (s' : DriverState) (code : ℤ) → delete_directory r i e s ≡ reply code s' → IsState s'
  unfolding delete_directory synced
  delete_directory-IsState s' code h =
      elim (Option-cases (clear_cluster s.fat_table e.cluster_low)) [
        | inl p ↦ ground (arith, p, reply-IsState (pos 2) code s s' v)
        | inr (fat, p) ↦ ground (
          arith,
          p,
          reply-IsState (pos 2) code s s' v,
          reply-IsState (pos 0) code (synced fat) s'
              (synced-IsState fat (clear_cluster-IsFat s.fat_table fat e.cluster_low v.fat p)),
        )
      ]

  delete_file-IsState :
      (s' : DriverState) (code : ℤ) → delete_file r i e s ≡ reply code s' → IsState s'
  unfolding delete_file synced
  delete_file-IsState s' code h =
      elim (Option-cases
        (chain_clusters (divceil e.filesize 2048 % 2 ^ 16) e.cluster_low s.fat_table)) [
          | inl p ↦ ground (arith, p)
          | inr (cs, p) ↦ elim (Option-cases (clear_clusters cs s.fat_table)) [
            | inl q ↦ ground (arith, p, q)
            | inr (fat, q) ↦ ground (
              arith,
              p,
              q,
              reply-IsState (pos 0) code (synced fat) s'
                  (synced-IsState fat (clear_clusters-IsFat cs s.fat_table fat v.fat q)),
            )
          ]
        ]

delete_scan-IsState :
    (r : DriverRequest) (i : ℕ) (es : DirectoryTable) (s s' : DriverState) (code : ℤ)
    → IsState s
    → All IsEntry es
    → delete_scan r i es s ≡ reply code s'
    → IsState s'
unfolding delete_scan delete_entry
delete_scan-IsState r i [] s s' code v w h = reply-IsState (pos 1) code s s' v h
delete_scan-IsState r i (e ∷ es) s s' code v w h =
    let rest = delete_scan-IsState r (i + 1) es s s' code v w.1 in
    elim (Option-cases (matches_name r (e ∷ es))) [
      | inl p ↦ ground (arith, p, rest)
      | inr (found, p) ↦ ground (
        arith,
        p,
        rest,
        delete_directory-IsState r i e s v w.0 s' code,
        delete_file-IsState r i e s v w.0 s' code,
      )
    ]

-- Whatever `delete` answers, a well-formed state stays well formed.
pub delete-IsState :
    (r : DriverRequest) (s s' : DriverState) (code : ℤ)
    → IsState s
    → delete r s ≡ reply code s'
    → IsState s'
unfolding delete
delete-IsState r s s' code v h =
    let t = read_table-IsTable s.disk r.parent_cluster_number v.disk in
    delete_scan-IsState r 1 (drop 1 (read_table s.disk r.parent_cluster_number)) _ s' code
      (cached_table-IsState r.parent_cluster_number s v)
      (All-drop IsEntry 1 (read_table s.disk r.parent_cluster_number) t.entries) h

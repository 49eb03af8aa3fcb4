-- ===== src/Fat32/Delete/File.antt =====
-- `delete` of a file: its clusters become free and its entry unused.
use os_2024_operatingstress.Base.{
  ℕ, suc, ◌+◌, ◌%◌, ◌^◌, ◌<◌, ◌≡◌, refl, sym, ap, ap₂, ◌∙◌, subst, ◌≢◌, inl, inr, true, some, List,
  [], ◌∷◌, ◌++◌, arith, pos, ltb, ◌==◌, if◌then◌else◌, lt→ltb, Bool-cases, Ends-some, length,
  get_elem?, set, length-set, All, All-back, All-map,
}
use os_2024_operatingstress.Fat32.Types.{
  DirectoryEntry, DirectoryTable, DriverRequest, IsTable, IsEntry, IsFat,
}
use os_2024_operatingstress.Fat32.Links.{Links}
use os_2024_operatingstress.Fat32.Driver.{
  DriverState, reply, read_clusters, read_table, write_table, read_fat, write_fat, is_used,
  same_bytes, divceil,
}
use os_2024_operatingstress.Fat32.Driver.Laws.{
  read_table-write_table, read_fat-write_fat, read_clusters-write_table, read_clusters-write_fat,
  read_table_cong,
}
use os_2024_operatingstress.Fat32.Driver.Invariant.{
  IsState, read_table-IsTable, set-IsFat, set-IsTable,
}
use os_2024_operatingstress.Fat32.Delete.{
  matches_name, mark_deleted, clear_cluster, clear_clusters, chain_clusters, delete_file,
  delete_entry, delete_scan, delete,
}
use os_2024_operatingstress.Fat32.Delete.Laws.{Skips, delete_scan_skip}
use os_2024_operatingstress.Fat32.Delete.Directory.{mark_deleted-IsEntry, has, clear_clusters_lem}
use os_2024_operatingstress.Fat32.Delete.Valid.{delete-IsState}

-- The file that `delete` turns to: in the parent's table, behind entry 0 and entries that the loop
-- passes over, in use, with a name that matches and the extension; its clusters `c ∷ cs` are linked
-- in the cached table.
pub record FileAt (r : DriverRequest) (s : DriverState) (own : DirectoryEntry) (xs : DirectoryTable)
    (e : DirectoryEntry) (ys : DirectoryTable) (c : ℕ) (cs : List ℕ) : Type 0 where
  pub state : IsState s
  pub parent_in : r.parent_cluster_number < 512
  pub parent_apart : r.parent_cluster_number ≢ 1
  pub table : read_table s.disk r.parent_cluster_number ≡ own ∷ (xs ++ e ∷ ys)
  pub passed : Skips r xs (e ∷ ys)
  pub used : is_used e ≡ true
  pub named : matches_name r (e ∷ ys) ≡ some true
  pub ext : same_bytes e.ext r.ext 3 ≡ true
  pub is_file : e.attribute ≡ 0
  pub first : e.cluster_low ≡ c
  pub links : Links s.fat_table (c ∷ cs)
  pub inside : All (λ k. k < 512) (c ∷ cs)
  pub count : divceil e.filesize 2048 % 2 ^ 16 ≡ suc (length cs)

-- The clusters that `delete` collects are those of the chain.
chain_clusters_lem :
    (cs : List ℕ) (c : ℕ) (fat : List ℕ)
    → All (λ k. k < 512) (c ∷ cs)
    → Links fat (c ∷ cs)
    → chain_clusters (suc (length cs)) c fat ≡ some (c ∷ cs)
unfolding chain_clusters
chain_clusters_lem [] c fat lt h = rw h refl
chain_clusters_lem (d ∷ cs) c fat lt h =
    let low : d % 2 ^ 16 ≡ d = let x = lt.1.0 in omega arith in
    rw (h.0, low, chain_clusters_lem cs d fat lt.1 h.1) refl

-- Clusters inside the table can be cleared.
pub clear_clusters_runs :
    (cs fat : List ℕ)
    → All (λ k. k < length fat) cs
    → (fat' : List ℕ) × (clear_clusters cs fat ≡ some fat') × (length fat' ≡ length fat)
unfolding clear_clusters clear_cluster
clear_clusters_runs [] fat h = (fat, refl, refl)
clear_clusters_runs (c ∷ cs) fat h =
    let room : ltb c (length fat) ≡ true = lt→ltb c (length fat) h.0 in
    let size = length-set fat c 0 in
    let (fat', run, n) = clear_clusters_runs cs (set fat c 0) (
      All-map (λ k. k < length fat) (λ k. k < length (set fat c 0)) cs (λ k lt. omega (arith, size))
        h.1) in
    (fat', rw room run, n ∙ size)

clear_clusters-IsFat :
    (cs fat fat' : List ℕ) → IsFat fat → clear_clusters cs fat ≡ some fat' → IsFat fat'
unfolding clear_clusters clear_cluster
clear_clusters-IsFat [] fat fat' v h = Ends-some IsFat fat v fat' h
clear_clusters-IsFat (c ∷ cs) fat fat' v h = elim (Bool-cases (ltb c (length fat))) [
  | inl room ↦
      clear_clusters-IsFat cs (set fat c 0) fat' (set-IsFat fat c 0 v (omega arith)) (rw room at h)
  | inr out ↦ ground (arith, out)
]

module _ {r : DriverRequest} {s : DriverState} {own : DirectoryEntry} {xs : DirectoryTable}
    {e : DirectoryEntry} {ys : DirectoryTable} {c : ℕ} {cs : List ℕ}
    (h : FileAt r s own xs e ys c cs) where
  table_after : DirectoryTable
  table_after = set (own ∷ (xs ++ e ∷ ys)) (1 + length xs) (mark_deleted e)

  state_after : List ℕ → DriverState
  state_after fat = record s {
    fat_table = fat;
    dir_table_buf = table_after;
    disk = write_fat fat (write_table table_after r.parent_cluster_number s.disk);
  }

  delete_runs :
      (fat : List ℕ)
      → clear_clusters (c ∷ cs) s.fat_table ≡ some fat
      → delete r s ≡ reply (pos 0) (state_after fat)
  unfolding delete delete_scan delete_entry delete_file state_after table_after
  delete_runs fat cleared =
      let file : (e.attribute == 0) ≡ true = let z = h.is_file in ground arith in
      let chain : chain_clusters (divceil e.filesize 2048 % 2 ^ 16) e.cluster_low s.fat_table
          ≡ some (c ∷ cs) =
        ap₂ (λ n k. chain_clusters n k s.fat_table) h.count h.first
        ∙ chain_clusters_lem cs c s.fat_table h.inside h.links in
      rw (h.table, delete)
        (delete_scan_skip r 1 xs (e ∷ ys) (record s { dir_table_buf = own ∷ (xs ++ e ∷ ys) })
            h.passed
          ∙ rw (h.used, h.named, file, h.ext, chain, cleared) refl)

  -- In a well-formed state, a file that the loop reaches, in a parent below 512 that is not cluster
  -- 1, with its clusters linked in the cached allocation table, is deleted with answer 0: on the
  -- disk the allocation table is the cached one with the file's clusters free, the parent's entry
  -- is marked unused, every cluster but the parent's and the allocation table's is as before, and
  -- so is memory; the state is well formed.
  pub delete_frees_file :
      (s' : DriverState) × (delete r s ≡ reply (pos 0) s')
      × ((k : ℕ)
          → get_elem? (read_fat s'.disk) k
            ≡ (if has k (c ∷ cs) then some 0 else get_elem? s.fat_table k))
      × (read_table s'.disk r.parent_cluster_number
          ≡ set
              (own ∷ (xs ++ e ∷ ys))
              (1 + length xs)
              (record e { user_attribute = 0; undelete = 1 }))
      × ((k : ℕ)
          → k < 512
          → k ≢ 1
          → k ≢ r.parent_cluster_number
          → read_clusters s'.disk k ≡ read_clusters s.disk k)
      × (s'.fat_table ≡ read_fat s'.disk)
      × (s'.memory ≡ s.memory)
      × IsState s'
  unfolding state_after table_after
  delete_frees_file =
      let whole : IsTable (own ∷ (xs ++ e ∷ ys)) =
        subst IsTable h.table (read_table-IsTable s.disk r.parent_cluster_number h.state.disk) in
      let entry : IsEntry e = (All-back IsEntry xs (e ∷ ys) whole.entries.1).0 in
      let after : IsTable (set (own ∷ (xs ++ e ∷ ys)) (1 + length xs) (mark_deleted e)) =
        set-IsTable (own ∷ (xs ++ e ∷ ys)) (1 + length xs) (mark_deleted e) whole
          (mark_deleted-IsEntry e entry) in
      let (fat, cleared, n) = clear_clusters_runs (c ∷ cs) s.fat_table (
        All-map (λ k. k < 512) (λ k. k < length s.fat_table) (c ∷ cs)
          (λ k lt. omega (arith, h.state.fat.size)) h.inside) in
      let run = delete_runs fat cleared in
      let on_disk =
        read_fat-write_fat fat (write_table table_after r.parent_cluster_number s.disk)
          (clear_clusters-IsFat (c ∷ cs) s.fat_table fat h.state.fat cleared) in
      let ne = h.parent_apart in
      let lt = h.parent_in in
      (
        state_after fat,
        run,
        λ k.
            ap (λ l. get_elem? l k) on_disk ∙ clear_clusters_lem (c ∷ cs) s.fat_table fat k cleared,
        read_table_cong _ _ r.parent_cluster_number
              (read_clusters-write_fat _ r.parent_cluster_number _ (omega arith) ne)
            ∙ read_table-write_table _ r.parent_cluster_number s.disk after,
        λ k kl n1 n2.
            read_clusters-write_fat _ k _ (omega arith) n1
            ∙ read_clusters-write_table _ r.parent_cluster_number k s.disk (omega arith)
                (omega arith) (λ q. n2 (sym q)),
        sym on_disk,
        refl,
        delete-IsState r s (state_after fat) (pos 0) h.state run,
      )

-- ===== src/Fat32/Delete/Directory.antt =====
-- `delete` of a directory, and of the clusters of a file.
use os_2024_operatingstress.Base.{
  ℕ, zero, suc, ap, refl, ◌+◌, ◌<◌, ◌≡◌, sym, ◌∙◌, subst, ◌≢◌, inl, inr, Bool, true, false, ◌||◌,
  some, List, [], ◌∷◌, ◌++◌, arith, pos, ltb, ◌==◌, if◌then◌else◌, ltb→lt, lt→ltb, ==_iff,
  Bool-cases, length, get_elem?, set, drop, get_elem?-set_self, get_elem?-set_ne, All-back,
}
use os_2024_operatingstress.Fat32.Types.{
  DirectoryEntry, DirectoryTable, DriverRequest, IsTable, IsEntry,
}
use os_2024_operatingstress.Fat32.Driver.{
  DriverState, reply, read_clusters, read_table, write_table, read_fat, write_fat, is_used,
}
use os_2024_operatingstress.Fat32.Driver.Laws.{
  read_table-write_table, read_fat-write_fat, read_clusters-write_table, read_clusters-write_fat,
  read_table_cong,
}
use os_2024_operatingstress.Fat32.Driver.Invariant.{
  IsState, read_table-IsTable, set-IsFat, set-IsTable,
}
use os_2024_operatingstress.Fat32.Delete.{
  matches_name, mark_deleted, clear_cluster, clear_clusters, any_used, delete_directory,
  delete_entry, delete_scan, delete,
}
use os_2024_operatingstress.Fat32.Delete.Laws.{Skips, loaded, delete_scan_skip}

-- The directory that `delete` turns to: in the parent's table, behind entry 0 and entries that the
-- loop passes over, in use, with a name that matches.
pub record Reaches (r : DriverRequest) (s : DriverState) (own : DirectoryEntry)
    (xs : DirectoryTable) (e : DirectoryEntry) (ys : DirectoryTable) : Type 0 where
  pub table : read_table s.disk r.parent_cluster_number ≡ own ∷ (xs ++ e ∷ ys)
  pub passed : Skips r xs (e ∷ ys)
  pub used : is_used e ≡ true
  pub named : matches_name r (e ∷ ys) ≡ some true
  pub directory : e.attribute ≢ 0

pub mark_deleted-IsEntry : (e : DirectoryEntry) → IsEntry e → IsEntry (mark_deleted e)
mark_deleted-IsEntry e v = ground arith

-- Some entry is in use exactly if one holds the mark.
pub any_used-held :
    (t : DirectoryTable) (j : ℕ) (x : DirectoryEntry)
    → get_elem? t j ≡ some x
    → x.user_attribute ≡ 0xAA
    → any_used t ≡ true
unfolding any_used
any_used-held [] j x h u = cc
any_used-held (y ∷ t) zero x h u =
    let same : y ≡ x = cc in
    let own : y.user_attribute ≡ 0xAA = ap (λ (z : DirectoryEntry). z.user_attribute) same ∙ u in
    ground (arith, own)
any_used-held (y ∷ t) (suc j) x h u = ground (arith, any_used-held t j x h u)

pub any_used-none :
    (t : DirectoryTable)
    → ((j : ℕ) (x : DirectoryEntry) → get_elem? t j ≡ some x → x.user_attribute ≢ 0xAA)
    → any_used t ≡ false
unfolding any_used
any_used-none [] h = refl
any_used-none (y ∷ t) h =
    let own : y.user_attribute ≢ 0xAA = h 0 y refl in
    ground (arith, own, any_used-none t (λ j. h (suc j)))

pub drop-suc : (t : DirectoryTable) (j : ℕ) → get_elem? (drop 1 t) j ≡ get_elem? t (suc j)
drop-suc [] j = refl
drop-suc (y ∷ t) j = refl

module _ {r : DriverRequest} {s : DriverState} {own : DirectoryEntry} {xs : DirectoryTable}
    {e : DirectoryEntry} {ys : DirectoryTable} (h : Reaches r s own xs e ys) where
  delete_reaches : delete r s ≡ delete_directory r (1 + length xs) e (loaded r s)
  unfolding delete delete_scan delete_entry
  delete_reaches =
      let dir : (e.attribute == 0) ≡ false = let ne = h.directory in ground arith in
      rw (h.table, delete)
        (delete_scan_skip r 1 xs (e ∷ ys) (record s { dir_table_buf = own ∷ (xs ++ e ∷ ys) })
            h.passed
          ∙ rw (h.used, h.named, dir))

  -- A directory that the loop reaches, and whose table has behind the first entry one, at any
  -- index, that is in use, is not deleted: the answer is 2, and the disk, the allocation table and
  -- memory are as they were.
  pub delete_not_empty :
      (j : ℕ) (x : DirectoryEntry)
      → get_elem? (read_table s.disk e.cluster_low) (suc j) ≡ some x
      → x.user_attribute ≡ 0xAA
      → (s' : DriverState) × (delete r s ≡ reply (pos 2) s')
        × (s'.disk ≡ s.disk)
        × (s'.fat_table ≡ s.fat_table)
        × (s'.memory ≡ s.memory)
  unfolding delete_directory
  delete_not_empty j x held used =
      let full =
        any_used-held (drop 1 (read_table s.disk e.cluster_low)) j x
          (drop-suc (read_table s.disk e.cluster_low) j ∙ held) used in
      (loaded r s, rw (delete_reaches, full), refl, refl, refl)

  -- In a well-formed state, a directory that the loop reaches, below cluster 512 in a parent below
  -- 512 that is not cluster 1, and none of whose entries behind the first is in use, is deleted
  -- with answer 0: on the disk the allocation table is the cached one with the directory's cluster
  -- free, the parent's entry has its user attribute at 0 and its undelete mark at 1, and every
  -- cluster but the parent's and the allocation table's is as before.
  pub delete_empty :
      IsState s
      → r.parent_cluster_number < 512
      → r.parent_cluster_number ≢ 1
      → e.cluster_low < 512
      → ((j : ℕ) (x : DirectoryEntry)
          → get_elem? (read_table s.disk e.cluster_low) (suc j) ≡ some x
          → x.user_attribute ≢ 0xAA)
      → (s' : DriverState) × (delete r s ≡ reply (pos 0) s')
        × (read_fat s'.disk ≡ set s.fat_table e.cluster_low 0)
        × (read_table s'.disk r.parent_cluster_number
            ≡ set
                (own ∷ (xs ++ e ∷ ys))
                (1 + length xs)
                (record e { user_attribute = 0; undelete = 1 }))
        × ((k : ℕ)
            → k < 512
            → k ≢ 1
            → k ≢ r.parent_cluster_number
            → read_clusters s'.disk k ≡ read_clusters s.disk k)
  unfolding delete_directory clear_cluster
  delete_empty v lt ne inside none_used =
      let empty =
        any_used-none (drop 1 (read_table s.disk e.cluster_low))
          λ j x got. none_used j x (sym (drop-suc (read_table s.disk e.cluster_low) j) ∙ got) in
      let whole : IsTable (own ∷ (xs ++ e ∷ ys)) =
        subst IsTable h.table (read_table-IsTable s.disk r.parent_cluster_number v.disk) in
      let entry : IsEntry e = (All-back IsEntry xs (e ∷ ys) whole.entries.1).0 in
      let after : IsTable (set (own ∷ (xs ++ e ∷ ys)) (1 + length xs) (mark_deleted e)) =
        set-IsTable (own ∷ (xs ++ e ∷ ys)) (1 + length xs) (mark_deleted e) whole
          (mark_deleted-IsEntry e entry) in
      let room : ltb e.cluster_low (length s.fat_table) ≡ true =
        lt→ltb e.cluster_low (length s.fat_table) (omega (arith, v.fat.size)) in
      (
        record s {
          fat_table = set s.fat_table e.cluster_low 0;
          dir_table_buf = set (own ∷ (xs ++ e ∷ ys)) (1 + length xs) (mark_deleted e);
          disk = write_fat (set s.fat_table e.cluster_low 0) (
              write_table (set (own ∷ (xs ++ e ∷ ys)) (1 + length xs) (mark_deleted e))
                r.parent_cluster_number s.disk);
        },
        delete_reaches ∙ rw (empty, room, h.table),
        read_fat-write_fat (set s.fat_table e.cluster_low 0) _
            (set-IsFat s.fat_table e.cluster_low 0 v.fat (omega arith)),
        read_table_cong _ _ r.parent_cluster_number
              (read_clusters-write_fat _ r.parent_cluster_number _ (omega arith) ne)
            ∙ read_table-write_table _ r.parent_cluster_number s.disk after,
        λ k kl n1 n2.
            read_clusters-write_fat _ k _ (omega arith) n1
            ∙ read_clusters-write_table _ r.parent_cluster_number k s.disk (omega arith)
                (omega arith) (λ q. n2 (sym q)),
      )

-- Some cluster of a chain.
abbrev pub has : ℕ → List ℕ → Bool
has k [] = false
has k (c ∷ cs) = (c == k) || has k cs

-- The clusters that `delete` collects for a file become free, all others keep their entries.
pub clear_clusters_lem :
    (cs fat fat' : List ℕ) (k : ℕ)
    → clear_clusters cs fat ≡ some fat'
    → get_elem? fat' k ≡ (if has k cs then some 0 else get_elem? fat k)
unfolding clear_clusters clear_cluster
clear_clusters_lem [] fat fat' k h = ground arith
clear_clusters_lem (c ∷ cs) fat fat' k h = elim (Bool-cases (ltb c (length fat))) [
  | inl room ↦
      let ih = clear_clusters_lem cs (set fat c 0) fat' k (ground (arith, room)) in
      elim (Bool-cases (c == k)) [
        | inl same ↦
            let e : c ≡ k = (==_iff c k).0 same in
            let freed : get_elem? (set fat c 0) k ≡ some 0 =
              subst (λ j. get_elem? (set fat c 0) j ≡ some 0) e
                (get_elem?-set_self fat c 0 (ltb→lt c (length fat) room)) in
            rw same (ih ∙ ground (arith, freed))
        | inr other ↦
            let kept : get_elem? (set fat c 0) k ≡ get_elem? fat k =
              get_elem?-set_ne fat c k 0 (ground arith) in
            rw other (ih ∙ ground (arith, kept))
      ]
  | inr out ↦ ground (arith, out)
]

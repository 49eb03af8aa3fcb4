-- ===== src/Fat32/Write/Laws.antt =====
-- `write`: the searches, the refusals, and what creating a directory leaves on the disk.
use os_2024_operatingstress.Base.{
  ℕ, zero, suc, ◌+◌, ◌<◌, ◌≡◌, refl, subst, ◌≢◌, inl, inr, false, none, some, List, [], ◌∷◌, arith,
  pos, ◌==◌, Bool-cases, get_elem?, All,
}
use os_2024_operatingstress.Fat32.Types.{DirectoryEntry, DirectoryTable, DriverRequest}
use os_2024_operatingstress.Fat32.Driver.{DriverState, reply, read_table, read_fat, is_used}
use os_2024_operatingstress.Fat32.Write.{find_empty, free_cluster, free_slot, write_new, write}

pub find_empty_lem :
    (fat : List ℕ) (c k : ℕ)
    → find_empty fat c ≡ some k
    → (j : ℕ) × (k ≡ c + j)
      × (get_elem? fat j ≡ some 0)
      × ((i : ℕ) → i < j → get_elem? fat i ≢ some 0)
unfolding find_empty
find_empty_lem [] c k h = cc
find_empty_lem (v ∷ vs) c k h = elim (Bool-cases (v == 0)) [
  | inl e ↦ (0, ground arith, ground arith, λ i lt. absurd (omega arith))
  | inr e ↦
      let (j, at, free, least) = find_empty_lem vs (c + 1) k (ground arith) in
      (suc j, omega (arith, at), free, first v vs j (ground arith) least)
]
  where
    first :
        (v : ℕ) (vs : List ℕ) (j : ℕ)
        → v ≢ 0
        → ((i : ℕ) → i < j → get_elem? vs i ≢ some 0)
        → (i : ℕ) → i < suc j
        → get_elem? (v ∷ vs) i ≢ some 0
    first v vs j ne h zero lt e = ground arith
    first v vs j ne h (suc i) lt e = h i (omega arith) e

-- A search from the start that finds a cluster finds the first free entry of the table.
pub free_cluster_first :
    (fat : List ℕ) (k : ℕ)
    → free_cluster fat 0 ≡ some k
    → (get_elem? fat k ≡ some 0) × ((i : ℕ) → i < k → get_elem? fat i ≢ some 0)
unfolding free_cluster
free_cluster_first fat k h =
    let (j, at, free, least) = find_empty_lem fat 0 k h in
    let same : j ≡ k = omega (arith, at) in
    (subst (λ n. get_elem? fat n ≡ some 0) same free, λ i lt. least i (omega arith))

find_empty_full : (fat : List ℕ) (c : ℕ) → All (λ v. v ≢ 0) fat → find_empty fat c ≡ none
unfolding find_empty
find_empty_full [] c h = refl
find_empty_full (v ∷ vs) c h = ground (arith, find_empty_full vs (c + 1) h.1)

-- With no free entry the search runs off the table.
pub free_cluster_full : (fat : List ℕ) → All (λ v. v ≢ 0) fat → free_cluster fat 0 ≡ none
unfolding free_cluster
free_cluster_full fat h = find_empty_full fat 0 h

pub free_slot_lem :
    (t : DirectoryTable) (c k : ℕ)
    → free_slot t c ≡ some k
    → (j : ℕ) × (e : DirectoryEntry) × (k ≡ c + j) × (get_elem? t j ≡ some e) × (is_used e ≡ false)
unfolding free_slot
free_slot_lem [] c k h = cc
free_slot_lem (e ∷ es) c k h = elim (Bool-cases (is_used e)) [
  | inl used ↦
      let (j, e', at, found, free) = free_slot_lem es (c + 1) k (ground arith) in
      (suc j, e', omega (arith, at), found, free)
  | inr free ↦ (0, e, ground arith, refl, free)
]

-- The state in which `write` works: directory and allocation table as they are on the disk.
abbrev pub loaded : DriverRequest → DriverState → DriverState
loaded r s = record s {
  dir_table_buf = read_table s.disk r.parent_cluster_number;
  fat_table = read_fat s.disk;
}

pub write_valid :
    (r : DriverRequest) (s : DriverState) (v : ℕ)
    → get_elem? (read_fat s.disk) r.parent_cluster_number ≡ some v
    → v ≢ 0
    → write r s ≡ write_new r (loaded r s)
unfolding write
write_valid r s v h ne = let used : (v == 0) ≡ false = ground arith in rw (h, used)

-- A parent whose entry in the disk's allocation table is empty is refused with 2, and nothing is
-- written.
pub write_invalid_parent :
    (r : DriverRequest) (s : DriverState)
    → get_elem? (read_fat s.disk) r.parent_cluster_number ≡ some 0
    → write r s ≡ reply (pos 2) (loaded r s)
unfolding write
write_invalid_parent r s h = rw h

-- A parent outside the allocation table makes the source read past its end.
pub write_parent_outside :
    (r : DriverRequest) (s : DriverState)
    → get_elem? (read_fat s.disk) r.parent_cluster_number ≡ none
    → write r s ≡ none
unfolding write
write_parent_outside r s h = rw h

-- ===== src/Fat32/Write/Search.antt =====
-- The searches of `write` succeed while free entries are left: how many there are, and which entry
-- the next search finds once one is taken.
use os_2024_operatingstress.Base.{
  ℕ, suc, ◌+◌, ◌<◌, ◌≡◌, sym, ap, ◌∙◌, ◌≢◌, inl, inr, false, some, List, [], ◌∷◌, arith, ◌==◌,
  if◌then◌else◌, Bool-cases, get_elem?, set, drop,
}
use os_2024_operatingstress.Fat32.Write.{find_empty, free_cluster}

-- The free entries of a table.
abbrev pub free_count : List ℕ → ℕ
free_count [] = 0
free_count (v ∷ vs) = (if v == 0 then 1 else 0) + free_count vs

find_one :
    (fat : List ℕ) (c : ℕ)
    → 0 < free_count fat
    → (j : ℕ) × (find_empty fat c ≡ some (c + j)) × (get_elem? fat j ≡ some 0)
unfolding find_empty
find_one [] c h = absurd (omega arith)
find_one (v ∷ vs) c h = elim (Bool-cases (v == 0)) [
  | inl e ↦ (0, ground arith, ground arith)
  | inr e ↦
      let (j, found, free) = find_one vs (c + 1) (ground arith) in
      (suc j, rw e (found ∙ ap some (omega arith)), free)
]

-- With two free entries, a search and the search behind what it found both succeed; when the first
-- entry is taken, the next search from the start finds the second.
find_two :
    (fat : List ℕ) (c : ℕ)
    → 1 < free_count fat
    → (j m : ℕ) × (find_empty fat c ≡ some (c + j))
      × (find_empty (drop (suc j) fat) (c + suc j) ≡ some (c + m))
      × (j < m)
      × (get_elem? fat j ≡ some 0)
      × (get_elem? fat m ≡ some 0)
      × ((v : ℕ)
          → v ≢ 0
          → (find_empty (set fat j v) c ≡ some (c + m))
            × (free_count (set fat j v) + 1 ≡ free_count fat))
unfolding find_empty
find_two [] c h = absurd (omega arith)
find_two (v ∷ vs) c h = elim (Bool-cases (v == 0)) [
  | inl e ↦
      let (m, found, free) = find_one vs (c + 1) (ground arith) in
      let at : some (c + 1 + m) ≡ some (c + suc m) = ap some (omega arith) in
      (
        0,
        suc m,
        ground arith,
        found ∙ at,
        omega arith,
        ground arith,
        free,
        λ w p. (let used : (w == 0) ≡ false = ground arith in rw used (found ∙ at), ground arith),
      )
  | inr e ↦
      let (j, m, first, second, lt, free, free', taken) = find_two vs (c + 1) (ground arith) in
      let at : some (c + 1 + j) ≡ some (c + suc j) = ap some (omega arith) in
      let at' : some (c + 1 + m) ≡ some (c + suc m) = ap some (omega arith) in
      let from : c + suc (suc j) ≡ c + 1 + suc j = omega arith in
      (
        suc j,
        suc m,
        rw e (first ∙ at),
        rw from (second ∙ at'),
        omega arith,
        free,
        free',
        λ w p. (rw e ((taken w p).0 ∙ at'), rw e (omega (arith, (taken w p).1))),
      )
]

-- The two searches of a round of `write`, and the first of the next round.
pub free_cluster_two :
    (fat : List ℕ)
    → 1 < free_count fat
    → (cluster next_cluster : ℕ) × (free_cluster fat 0 ≡ some cluster)
      × (free_cluster fat (cluster + 1) ≡ some next_cluster)
      × (cluster < next_cluster)
      × (get_elem? fat cluster ≡ some 0)
      × (get_elem? fat next_cluster ≡ some 0)
      × ((v : ℕ)
          → v ≢ 0
          → (free_cluster (set fat cluster v) 0 ≡ some next_cluster)
            × (free_count (set fat cluster v) + 1 ≡ free_count fat))
unfolding free_cluster
free_cluster_two fat h =
    let (j, m, first, second, lt, free, free', taken) = find_two fat 0 h in
    let zero_add : (k : ℕ) → 0 + k ≡ k = λ k. omega arith in
    (
      j,
      m,
      first ∙ ap some (zero_add j),
      ap (λ k. find_empty (drop k fat) k) (omega arith)
          ∙ (ap (find_empty (drop (suc j) fat)) (sym (zero_add (suc j)))
              ∙ (second ∙ ap some (zero_add m))),
      lt,
      free,
      free',
      λ v p. ((taken v p).0 ∙ ap some (zero_add m), (taken v p).1),
    )

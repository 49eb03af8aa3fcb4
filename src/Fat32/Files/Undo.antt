-- ===== src/Fat32/Files/Undo.antt =====
-- `delete` after `write` gives back the clusters.
use os_2024_operatingstress.Base.{
  ℕ, ◌≡◌, refl, sym, ap, ◌∙◌, subst, ◌≢◌, ◌⊎◌, inl, inr, true, false, some, List, [], ◌∷◌, arith,
  pos, ◌==◌, if◌then◌else◌, Bool-cases, get_elem?, All, get_elem?-ext,
}
use os_2024_operatingstress.Fat32.Types.{DirectoryEntry, DriverRequest}
use os_2024_operatingstress.Fat32.Driver.{DriverState, reply, read_fat}
use os_2024_operatingstress.Fat32.Write.File.{CanWrite, Written}
use os_2024_operatingstress.Fat32.Delete.{delete}
use os_2024_operatingstress.Fat32.Delete.Directory.{has}
use os_2024_operatingstress.Fat32.Delete.File.{delete_frees_file}
use os_2024_operatingstress.Fat32.Files.{Holds}
use os_2024_operatingstress.Fat32.Files.Write.{new_file, Holds-new}
use os_2024_operatingstress.Fat32.Files.Delete.{Chooses, Chooses-FileAt}

-- A number is in a list, or apart from all of it.
has-cases : (k : ℕ) (cs : List ℕ) → (has k cs ≡ true) ⊎ ((has k cs ≡ false) × All (λ c. c ≢ k) cs)
has-cases k [] = inr (refl, tt)
has-cases k (c ∷ cs) = elim (Bool-cases (c == k)) [
  | inl e ↦ inl (rw e refl)
  | inr e ↦ elim (has-cases k cs) [
    | inl there ↦ inl (ground (arith, there))
    | inr out ↦ inr (ground (arith, e, out.0), (ground (arith, e), out.1))
  ]
]

has-All : (P : ℕ → Type 0) (k : ℕ) (cs : List ℕ) → All P cs → has k cs ≡ true → P k
has-All P k [] v h = cc
has-All P k (c ∷ cs) v h = elim (Bool-cases (c == k)) [
  | inl e ↦ let same : c ≡ k = ground (arith, e) in subst P same v.0
  | inr e ↦ has-All P k cs v.1 (ground (arith, e))
]

-- Where `write` created a file on a disk whose cluster 0 is in use, in a slot that held no old
-- size, and the loop of `delete` turns to that file: `delete` answers 0, and the allocation table
-- on the disk is the one before `write`.
pub delete-write :
    {r : DriverRequest} {s : DriverState} {slot : ℕ} {old : DirectoryEntry}
    (w : CanWrite r s slot old) (q : DriverRequest) (s' : DriverState) (c : ℕ) (cs : List ℕ)
    → old.filesize ≡ 0
    → get_elem? (read_fat s.disk) 0 ≢ some 0
    → Written r s slot old s' c cs
    → q.parent_cluster_number ≡ r.parent_cluster_number
    → Chooses q s' (new_file w c cs)
    → (s'' : DriverState) × (delete q s' ≡ reply (pos 0) s'')
      × (read_fat s''.disk ≡ read_fat s.disk)
delete-write {s} w q s' c cs fresh zero_used h parent chosen =
    let held =
      subst (λ p. Holds s'.disk p (new_file w c cs)) (sym parent)
        (Holds-new w s' c cs fresh zero_used h) in
    let (s'', run, fat, _, _, _, _, _) = delete_frees_file (Chooses-FileAt chosen held) in
    (
      s'',
      run,
      get_elem?-ext (read_fat s''.disk) (read_fat s.disk) λ k. fat k ∙ elim (has-cases k (c ∷ cs)) [
        | inl there ↦
            ap (λ b. if b then some 0 else get_elem? s'.fat_table k) there
            ∙ sym (has-All (λ j. get_elem? (read_fat s.disk) j ≡ some 0) k (c ∷ cs) h.free there)
        | inr out ↦
            ap (λ b. if b then some 0 else get_elem? s'.fat_table k) out.0
            ∙ (ap (λ l. get_elem? l k) h.cached_fat ∙ h.rest_fat k out.1)
      ],
    )

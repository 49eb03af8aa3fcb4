-- ===== src/Fat32/Write/Slot.antt =====
-- Updates of the parent's slot, and one round of the loop of `write` that writes a file.
use os_2024_operatingstress.Base.{
  ℕ, ◌+◌, ◌^◌, ◌<◌, ◌≡◌, sym, ap, ◌∙◌, subst, ◌≢◌, inl, inr, none, some, List, arith, Option-cases,
  length, get_elem?, set, get_elem?-set_self, lt-length_of_some, All-get, set-set,
}
use os_2024_operatingstress.Fat32.Types.{DirectoryEntry, DirectoryTable, IsTable, IsEntry}
use os_2024_operatingstress.Fat32.Codec.Bounds.{Bytes}
use os_2024_operatingstress.Fat32.Driver.{
  DriverState, read_clusters, write_clusters, read_fat, write_fat,
}
use os_2024_operatingstress.Fat32.Driver.Laws.{
  read_clusters-write_clusters, read_clusters_apart, read_clusters-write_fat, read_fat-write_fat,
}
use os_2024_operatingstress.Fat32.Driver.Invariant.{
  IsState, set-IsFat, set-IsTable, write_fat-IsStorage, write_clusters-IsStorage,
}
use os_2024_operatingstress.Fat32.Write.{update_slot, grow}

pub update_slot-some :
    (t : DirectoryTable) (k : ℕ) (f : DirectoryEntry → DirectoryEntry) {x : DirectoryEntry}
    → get_elem? t k ≡ some x
    → update_slot t k f ≡ set t k (f x)
update_slot-some t k f e = rw (e, update_slot)

update_slot-none :
    (t : DirectoryTable) (k : ℕ) (f : DirectoryEntry → DirectoryEntry)
    → get_elem? t k ≡ none
    → update_slot t k f ≡ t
update_slot-none t k f e = rw (e, update_slot)

pub update_slot-IsTable :
    (t : DirectoryTable) (k : ℕ) (f : DirectoryEntry → DirectoryEntry)
    → IsTable t
    → ((e : DirectoryEntry) → IsEntry e → IsEntry (f e))
    → IsTable (update_slot t k f)
update_slot-IsTable t k f v h = elim (Option-cases (get_elem? t k)) [
  | inl e ↦ subst IsTable (sym (update_slot-none t k f e)) v
  | inr (x, e) ↦
      subst IsTable (sym (update_slot-some t k f e))
        (set-IsTable t k (f x) v (h x (All-get IsEntry t k v.entries e)))
]

pub update_slot-update_slot :
    (t : DirectoryTable) (k : ℕ) (f g : DirectoryEntry → DirectoryEntry)
    → update_slot (update_slot t k f) k g ≡ update_slot t k (λ e. g (f e))
update_slot-update_slot t k f g = elim (Option-cases (get_elem? t k)) [
  | inl e ↦
      ap (λ u. update_slot u k g) (update_slot-none t k f e)
      ∙ (update_slot-none t k g e ∙ sym (update_slot-none t k (λ x. g (f x)) e))
  | inr (x, e) ↦
      let back : get_elem? (set t k (f x)) k ≡ some (f x) =
        get_elem?-set_self t k (f x) (lt-length_of_some t k e) in
      ap (λ u. update_slot u k g) (update_slot-some t k f e)
      ∙ (update_slot-some (set t k (f x)) k g back
          ∙ (set-set t k (f x) (g (f x)) ∙ sym (update_slot-some t k (λ y. g (f y)) e)))
]

pub grow-IsEntry : (n : ℕ) (e : DirectoryEntry) → IsEntry e → IsEntry (grow n e)
grow-IsEntry n e v = ground arith

pub grow-grow : (a b : ℕ) (e : DirectoryEntry) → grow b (grow a e) ≡ grow (a + b) e
grow-grow a b e = ground arith

-- A round's effect: the cluster's bytes and its entry, the table on the disk, and the size.
abbrev pub placed : ℕ → ℕ → ℕ → List ℕ → ℕ → DriverState → DriverState
placed slot c v bs g s = record s {
  fat_table = set s.fat_table c v;
  dir_table_buf = update_slot s.dir_table_buf slot (grow g);
  disk = write_fat (set s.fat_table c v) (write_clusters bs c s.disk);
}

module _ (slot c v : ℕ) (bs : List ℕ) (g : ℕ) (s : DriverState) (w : IsState s)
    (n : length bs ≡ 2048) (b : Bytes bs) (hv : v < 2 ^ 32) where
  pub placed-IsState : IsState (placed slot c v bs g s)
  placed-IsState = record {
    memory = w.memory;
    disk =
        write_fat-IsStorage (set s.fat_table c v) _ (set-IsFat s.fat_table c v w.fat hv)
          (write_clusters-IsStorage bs c s.disk n b w.disk);
    fat = set-IsFat s.fat_table c v w.fat hv;
    table = update_slot-IsTable s.dir_table_buf slot (grow g) w.table (grow-IsEntry g);
  }

  pub placed_fat : read_fat (placed slot c v bs g s).disk ≡ set s.fat_table c v
  placed_fat = read_fat-write_fat (set s.fat_table c v) _ (set-IsFat s.fat_table c v w.fat hv)

  pub placed_bytes : c < 512 → c ≢ 1 → read_clusters (placed slot c v bs g s).disk c ≡ bs
  placed_bytes lt ne =
      read_clusters-write_fat (set s.fat_table c v) c _ (omega arith) ne
      ∙ read_clusters-write_clusters bs c s.disk n

  pub placed_others :
      (k : ℕ)
      → c < 512
      → k < 512
      → k ≢ 1
      → k ≢ c
      → read_clusters (placed slot c v bs g s).disk k ≡ read_clusters s.disk k
  placed_others k lt lk ne nc =
      read_clusters-write_fat (set s.fat_table c v) k _ (omega arith) ne
      ∙ read_clusters_apart bs c k s.disk (omega arith) (omega arith) (λ e. nc (sym e))

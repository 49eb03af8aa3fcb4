-- ===== src/Fat32/Files/Write.antt =====
-- `write` of a file adds it to the files that the disk holds in the directory.
use os_2024_operatingstress.Base.{
  ℕ, suc, ◌+◌, ◌≡◌, refl, sym, ap, ◌∙◌, subst, ◌≢◌, inl, inr, false, some, List, [], ◌∷◌, arith,
  pos, Bool-cases, get_elem?, take, take-append, take_all, get_elem?-set_self, get_elem?-set_ne,
  lt-length_of_some, All, All-get, All-map,
}
use os_2024_operatingstress.Fat32.Types.{DirectoryEntry, DriverRequest}
use os_2024_operatingstress.Fat32.Links.{contents}
use os_2024_operatingstress.Fat32.Driver.{
  DriverState, reply, read_table, read_fat, read_clusters, load_bytes, is_used, divceil,
}
use os_2024_operatingstress.Fat32.Driver.Invariant.{
  IsState, read_table-IsTable, read_fat-IsFat, load_bytes-Bytes,
}
use os_2024_operatingstress.Fat32.Write.{write, claim_entry, free_slot}
use os_2024_operatingstress.Fat32.Write.File.{CanWrite, Written, file_entry, write_creates_file}
use os_2024_operatingstress.Fat32.Read.Laws.{NameExt}
use os_2024_operatingstress.Fat32.RoundTrip.{not_duplicate-All, divceil-eq-total, free_count-le}
use os_2024_operatingstress.Fat32.Files.{
  File, chain, IsFree, Holds, Disjoint, Stores, chain_used, Holds-cong,
}

-- The slot that a file is written to holds an unused entry.
free_slot-unused :
    (t : List DirectoryEntry) (c k : ℕ)
    → free_slot t c ≡ some k
    → (j : ℕ) × (k ≡ c + j) × ((e : DirectoryEntry) → get_elem? t j ≡ some e → is_used e ≡ false)
unfolding free_slot
free_slot-unused [] c k h = cc
free_slot-unused (x ∷ xs) c k h = elim (Bool-cases (is_used x)) [
  | inl used ↦
      let (j, e, unused) = free_slot-unused xs (c + 1) k (rw used at h) in
      (suc j, omega (arith, e), unused)
  | inr unused ↦
      let same : c ≡ k = let q = rw unused at h in cc in
      (
        0,
        omega (arith, same),
        λ e got. let own : x ≡ e = cc in subst (λ y. is_used y ≡ false) own unused,
      )
]

module _ {r : DriverRequest} {s : DriverState} {slot : ℕ} {old : DirectoryEntry}
    (w : CanWrite r s slot old) where
  -- The file that `write` adds.
  abbrev pub new_file : ℕ → List ℕ → File
  new_file c cs = record {
    name = r.name;
    ext = r.ext;
    bytes = load_bytes s.memory r.buf r.buffer_size;
    slot = slot;
    first = c;
    rest = cs;
  }

  -- The name is new, so no file that the disk holds has it.
  new_name :
      (f : File) → Holds s.disk r.parent_cluster_number f → ¬ ((r.name ≡ f.name) × (r.ext ≡ f.ext))
  new_name f h m =
      let t = read_table-IsTable s.disk r.parent_cluster_number w.state.disk in
      let others =
        not_duplicate-All r (read_table s.disk r.parent_cluster_number) w.request w.is_file
          t.entries w.is_new in
      All-get (λ x. ¬ NameExt r x) (read_table s.disk r.parent_cluster_number) f.slot others h.held
        (h.named.0 ∙ sym m.0, h.named.1 ∙ sym m.1)

  other_slot : (f : File) → Holds s.disk r.parent_cluster_number f → slot ≢ f.slot
  other_slot f h same =
      let t = read_table s.disk r.parent_cluster_number in
      let (j, e, unused) = free_slot-unused t 0 slot w.slot_found in
      let at : f.slot ≡ j = omega (arith, e, same) in
      let free = unused h.entry (ap (get_elem? t) (sym at) ∙ h.held) in let used = h.used in cc

  kept_file :
      (s' : DriverState) (c : ℕ) (cs : List ℕ) (f : File)
      → Written r s slot old s' c cs
      → Holds s.disk r.parent_cluster_number f
      → Holds s'.disk r.parent_cluster_number f
  unfolding claim_entry
  kept_file s' c cs f h held =
      let used =
        chain_used r.parent_cluster_number (read_fat s.disk) (chain f) held.links held.apart in
      Holds-cong s.disk s'.disk r.parent_cluster_number slot (file_entry r c old) f held h.table
        (other_slot f held)
        (λ lt m. new_name f held (
          sym (take_all r.name 8 w.request.name) ∙ m.0,
          sym (take_all r.ext 3 w.request.ext) ∙ m.1,
        ))
        (All-map (λ k. get_elem? (read_fat s.disk) k ≢ some 0) _ (chain f) (λ k u. h.others_fat k u)
          used)
        (kept_clusters (chain f) held.apart used)
    where
      kept_clusters :
          (ks : List ℕ)
          → All (IsFree r.parent_cluster_number) ks
          → All (λ k. get_elem? (read_fat s.disk) k ≢ some 0) ks
          → All (λ k. read_clusters s'.disk k ≡ read_clusters s.disk k) ks
      kept_clusters [] a u = tt
      kept_clusters (k ∷ ks) a u = (h.others k a.0.0 a.0.2 a.0.3 u.0, kept_clusters ks a.1 u.1)

  -- Free clusters are apart from those in use.
  free_apart :
      (cs : List ℕ) (p : ℕ) (f : File)
      → All (λ k. get_elem? (read_fat s.disk) k ≡ some 0) cs
      → All (λ k. get_elem? (read_fat s.disk) k ≢ some 0) (chain f)
      → Disjoint cs (chain f)
  free_apart [] p f h u = tt
  free_apart (c ∷ cs) p f h u = (
    All-map (λ k. get_elem? (read_fat s.disk) k ≢ some 0) (λ j. j ≢ c) (chain f)
        (λ k used same. used (ap (get_elem? (read_fat s.disk)) same ∙ h.0)) u,
    free_apart cs p f h.1 u,
  )

  pub Holds-new :
      (s' : DriverState) (c : ℕ) (cs : List ℕ)
      → old.filesize ≡ 0
      → get_elem? (read_fat s.disk) 0 ≢ some 0
      → Written r s slot old s' c cs
      → Holds s'.disk r.parent_cluster_number (new_file c cs)
  unfolding claim_entry
  Holds-new s' c cs fresh zero_used h =
      let t = read_table s.disk r.parent_cluster_number in
      let vt = read_table-IsTable s.disk r.parent_cluster_number w.state.disk in
      let others = not_duplicate-All r t w.request w.is_file vt.entries w.is_new in
      let fat = read_fat-IsFat s.disk w.state.disk in
      let got = load_bytes-Bytes r.buffer_size s.memory r.buf w.state.memory in
      let wr = w.request in
      record {
        entry = file_entry r c old;
        held =
            ap (λ l. get_elem? l slot) h.table
            ∙ get_elem?-set_self t slot (file_entry r c old) (lt-length_of_some t slot w.held);
        before = λ j x lt e m.
            All-get (λ y. ¬ NameExt r y) t j {v = x} others
              (sym (get_elem?-set_ne t slot j (file_entry r c old) (omega arith))
                ∙ (sym (ap (λ l. get_elem? l j) h.table) ∙ e))
              m;
        named = (take_all r.name 8 w.request.name, take_all r.ext 3 w.request.ext);
        used = refl;
        is_file = refl;
        at = omega (arith, lt-length_of_some (read_fat s.disk) c h.free.0, fat.size);
        size = omega (arith, fresh, wr.size, got.0);
        links = h.links;
        count =
            let n = h.count in
            let few = w.room in
            omega (
              arith,
              ap (λ k. divceil k 2048) got.0,
              divceil-eq-total r.buffer_size wr.size,
              free_count-le (read_fat s.disk),
              fat.size,
            );
        apart =
            All-map (λ k. get_elem? (read_fat s.disk) k ≡ some 0) (IsFree r.parent_cluster_number)
              (c ∷ cs)
              (λ k z. (
                omega (arith, lt-length_of_some (read_fat s.disk) k z, fat.size),
                λ e. zero_used (subst (λ j. get_elem? (read_fat s.disk) j ≡ some 0) e z),
                λ e. w.fat_used (subst (λ j. get_elem? (read_fat s.disk) j ≡ some 0) e z),
                λ e. w.parent_used (subst (λ j. get_elem? (read_fat s.disk) j ≡ some 0) e z),
              ))
              h.free;
        bytes =
            ap (λ k. take k (contents s'.disk (c ∷ cs))) got.0
            ∙ ap (take r.buffer_size) h.bytes
            ∙ take-append (load_bytes s.memory r.buf r.buffer_size) _ r.buffer_size got.0;
      }

  -- Where `write` can create a file in a slot that holds no old size, on a disk whose cluster 0 is
  -- in use: `write` answers 0, and the disk that held some files in the directory then holds those
  -- and the new one, with the bytes of the buffer; the cached allocation table is the disk's,
  -- memory is as before, and the state is well formed.
  pub write_refines :
      (fs : List File)
      → old.filesize ≡ 0
      → get_elem? (read_fat s.disk) 0 ≢ some 0
      → Stores s.disk r.parent_cluster_number fs
      → (s' : DriverState) × (c : ℕ) × (cs : List ℕ) × (write r s ≡ reply (pos 0) s')
        × Stores s'.disk r.parent_cluster_number (new_file c cs ∷ fs)
        × (s'.fat_table ≡ read_fat s'.disk)
        × (s'.memory ≡ s.memory)
        × IsState s'
  write_refines fs fresh zero_used v =
      let (s', c, cs, run, h) = write_creates_file w in
      let p = r.parent_cluster_number in
      (
        s',
        c,
        cs,
        run,
        record {
          files = (
            Holds-new s' c cs fresh zero_used h,
            All-map (Holds s.disk p) (Holds s'.disk p) fs (λ f held. kept_file s' c cs f h held)
                v.files,
          );
          disjoint = (
            All-map (Holds s.disk p) (λ f. Disjoint (c ∷ cs) (chain f)) fs
                (λ f held.
                  free_apart (c ∷ cs) p f h.free
                    (chain_used p (read_fat s.disk) (chain f) held.links held.apart))
                v.files,
            v.disjoint,
          );
        },
        h.cached_fat,
        h.memory,
        h.valid,
      )

-- ===== src/Fat32/Write/File.antt =====
-- Writing a file: what is on the disk afterwards.
use os_2024_operatingstress.Base.{
  ℕ, suc, ◌-◌, ◌*◌, ◌≤◌, ◌<◌, ◌≡◌, sym, ap, ap₂, ◌∙◌, subst, ◌≢◌, false, some, List, ◌∷◌, ◌++◌,
  arith, pos, ◌==◌, length, get_elem?, set, replicate, take, ◌+◌, ◌%◌, ◌^◌, length-take,
  get_elem?-some, lt-length_of_some, All, All-take, All-map,
}
use os_2024_operatingstress.Fat32.Types.{DirectoryEntry, DriverRequest, IsEntry, IsRequest}
use os_2024_operatingstress.Fat32.Links.{Links, contents, contents_cong}
use os_2024_operatingstress.Fat32.Driver.{
  DriverState, reply, read_clusters, read_table, write_table, read_fat, load_bytes,
}
use os_2024_operatingstress.Fat32.Driver.Laws.{
  read_table-write_table, read_clusters-write_table, read_fat_cong,
}
use os_2024_operatingstress.Fat32.Driver.Invariant.{
  IsState, read_fat-IsFat, read_table-IsTable, write_table-IsStorage,
}
use os_2024_operatingstress.Fat32.Write.{
  free_cluster, free_slot, is_duplicate, update_slot, claim_entry, grow, total_clusters,
  write_chain, write_file, write_new, write,
}
use os_2024_operatingstress.Fat32.Write.Laws.{write_valid}
use os_2024_operatingstress.Fat32.Write.Search.{free_count, free_cluster_two}
use os_2024_operatingstress.Fat32.Write.Slot.{
  update_slot-some, update_slot-IsTable, update_slot-update_slot,
}
use os_2024_operatingstress.Fat32.Write.Chain.{Chained, chain_lem}

-- What a caller that writes a file in an initialised file system can count on: the parent is a
-- directory in use, no entry of it has the file's name and extension, `slot` is its first free
-- entry, which held `old`, and there are free clusters for the file and one more.
pub record CanWrite (r : DriverRequest) (s : DriverState) (slot : ℕ) (old : DirectoryEntry)
    : Type 0 where
  pub request : IsRequest r
  pub state : IsState s
  pub is_file : r.buffer_size ≢ 0
  pub parent_in : r.parent_cluster_number < 512
  pub parent_used : get_elem? (read_fat s.disk) r.parent_cluster_number ≢ some 0
  pub parent_apart : r.parent_cluster_number ≢ 1
  pub fat_used : get_elem? (read_fat s.disk) 1 ≢ some 0
  pub is_new : is_duplicate r (read_table s.disk r.parent_cluster_number) ≡ false
  pub slot_found : free_slot (read_table s.disk r.parent_cluster_number) 0 ≡ some slot
  pub held : get_elem? (read_table s.disk r.parent_cluster_number) slot ≡ some old
  pub room : total_clusters r.buffer_size < free_count (read_fat s.disk)

-- The entry that the slot holds afterwards, for a file whose first cluster is `c`: in use, with the
-- file's name and extension, that cluster, and the file's size on top of the old one.
abbrev pub file_entry : DriverRequest → ℕ → DirectoryEntry → DirectoryEntry
file_entry r c old = record old {
  name = take 8 r.name;
  ext = take 3 r.ext;
  attribute = 0;
  user_attribute = 0xAA;
  cluster_low = c % 2 ^ 16;
  filesize = (old.filesize + r.buffer_size) % 2 ^ 32;
}

-- What the disk holds after it: the file's bytes, padded with zeros, in the clusters `c ∷ cs`.
pub record Written (r : DriverRequest) (s : DriverState) (slot : ℕ) (old : DirectoryEntry)
    (s' : DriverState) (c : ℕ) (cs : List ℕ) : Type 0 where
  pub links : Links (read_fat s'.disk) (c ∷ cs)
  pub count : length (c ∷ cs) ≡ total_clusters r.buffer_size
  pub bytes :
      contents s'.disk (c ∷ cs)
      ≡ load_bytes s.memory r.buf r.buffer_size
        ++ replicate (2048 * total_clusters r.buffer_size - r.buffer_size) 0
  pub table :
      read_table s'.disk r.parent_cluster_number
      ≡ set (read_table s.disk r.parent_cluster_number) slot (file_entry r c old)
  pub free : All (λ k. get_elem? (read_fat s.disk) k ≡ some 0) (c ∷ cs)
  pub others :
      (k : ℕ)
      → k < 512
      → k ≢ 1
      → k ≢ r.parent_cluster_number
      → get_elem? (read_fat s.disk) k ≢ some 0
      → read_clusters s'.disk k ≡ read_clusters s.disk k
  pub others_fat :
      (k : ℕ)
      → get_elem? (read_fat s.disk) k ≢ some 0
      → get_elem? (read_fat s'.disk) k ≡ get_elem? (read_fat s.disk) k
  pub rest_fat :
      (k : ℕ)
      → All (λ j. j ≢ k) (c ∷ cs)
      → get_elem? (read_fat s'.disk) k ≡ get_elem? (read_fat s.disk) k
  pub cached_fat : s'.fat_table ≡ read_fat s'.disk
  pub memory : s'.memory ≡ s.memory
  pub valid : IsState s'

pub claim_entry-IsEntry :
    (r : DriverRequest) (c : ℕ) (e : DirectoryEntry)
    → IsRequest r
    → IsEntry e
    → IsEntry (claim_entry r c e)
unfolding claim_entry
claim_entry-IsEntry r c e q v = record {
  name = length-take 8 r.name (omega (arith, q.name));
  ext = length-take 3 r.ext (omega (arith, q.ext));
  name_bytes = All-take (λ b. b < 256) 8 r.name q.name_bytes;
  ext_bytes = All-take (λ b. b < 256) 3 r.ext q.ext_bytes;
  attribute = omega arith;
  user_attribute = omega arith;
  undelete = v.undelete;
  create_time = v.create_time;
  create_date = v.create_date;
  access_date = v.access_date;
  cluster_high = v.cluster_high;
  modified_time = v.modified_time;
  modified_date = v.modified_date;
  cluster_low = omega arith;
  filesize = v.filesize;
}

-- The clusters that the size needs.
pub total_clusters_lem :
    (n : ℕ) → n ≢ 0 → (m : ℕ) × (total_clusters n ≡ suc m) × (2048 * m < n) × (n ≤ 2048 * suc m)
total_clusters_lem n h = (total_clusters n - 1, ground arith, ground arith, ground arith)

module _ {r : DriverRequest} {s : DriverState} {slot : ℕ} {old : DirectoryEntry}
    (w : CanWrite r s slot old) where
  parent : ℕ
  parent = r.parent_cluster_number

  -- The state before the loop, for the cluster that was found.
  claimed : ℕ → DriverState
  claimed c = record s {
    fat_table = read_fat s.disk;
    dir_table_buf = update_slot (read_table s.disk r.parent_cluster_number) slot (claim_entry r c);
  }

  claimed-IsState : (c : ℕ) → IsState (claimed c)
  unfolding claimed
  claimed-IsState c = record {
    memory = w.state.memory;
    disk = w.state.disk;
    fat = read_fat-IsFat s.disk w.state.disk;
    table =
        update_slot-IsTable (read_table s.disk r.parent_cluster_number) slot (claim_entry r c)
          (read_table-IsTable s.disk r.parent_cluster_number w.state.disk)
          (λ e. claim_entry-IsEntry r c e w.request);
  }

  -- The state after `write`, from the one after the loop.
  synced : DriverState → DriverState
  synced s1 = record s1 { disk = write_table s1.dir_table_buf r.parent_cluster_number s1.disk }

  write_file_runs :
      (c : ℕ) (s1 : DriverState)
      → free_cluster (read_fat s.disk) 0 ≡ some c
      → write_chain
          (total_clusters r.buffer_size)
          r
          (total_clusters r.buffer_size)
          slot
          0
          (claimed c)
        ≡ some s1
      → write r s ≡ reply (pos 0) (synced s1)
  unfolding write_new write_file claimed synced
  write_file_runs c s1 found run =
      let p =
        get_elem?-some (read_fat s.disk) r.parent_cluster_number
          (omega (arith, (read_fat-IsFat s.disk w.state.disk).size, w.parent_in)) in
      let size : (r.buffer_size == 0) ≡ false = let ne = w.is_file in ground arith in
      rw (
        write_valid r s p.0 p.1 (λ e. w.parent_used (p.1 ∙ ap some e)),
        found,
        w.is_new,
        w.slot_found,
        size,
        run,
      )

  Written-synced :
      (m c : ℕ) (cs : List ℕ) (s1 : DriverState)
      → total_clusters r.buffer_size ≡ suc m
      → Chained r slot 0 (suc m) (claimed c) s1 (c ∷ cs)
      → Written r s slot old (synced s1) c cs
  unfolding claimed synced claim_entry
  Written-synced m c cs s1 e h =
      let size : r.buffer_size - 2048 * 0 ≡ r.buffer_size = omega arith in
      let entry : s1.dir_table_buf
          ≡ set (read_table s.disk r.parent_cluster_number) slot (file_entry r c old) =
        h.table
        ∙ (update_slot-update_slot (read_table s.disk r.parent_cluster_number) slot
              (claim_entry r c) (grow (r.buffer_size - 2048 * 0))
            ∙ (ap
                  (λ k.
                    update_slot (read_table s.disk r.parent_cluster_number) slot
                      (λ x. grow k (claim_entry r c x)))
                  size
                ∙ update_slot-some (read_table s.disk r.parent_cluster_number) slot (file_entry r c)
                    w.held)) in
      let lt = w.parent_in in
      let fat : read_fat (write_table s1.dir_table_buf r.parent_cluster_number s1.disk)
          ≡ s1.fat_table =
        read_fat_cong _ _ (
          read_clusters-write_table s1.dir_table_buf r.parent_cluster_number 1 s1.disk (omega arith)
            (omega arith) w.parent_apart)
        ∙ h.fat in
      let kept : (k : ℕ)
          → k < 512
          → k ≢ r.parent_cluster_number
          → read_clusters (write_table s1.dir_table_buf r.parent_cluster_number s1.disk) k
            ≡ read_clusters s1.disk k =
        λ k lk ne.
          read_clusters-write_table s1.dir_table_buf r.parent_cluster_number k s1.disk (omega arith)
            (omega arith) (λ q. ne (sym q)) in
      let inside : (k : ℕ) → get_elem? (read_fat s.disk) k ≡ some 0 → k < 512 = λ k q. omega (
        arith,
        lt-length_of_some (read_fat s.disk) k q,
        (read_fat-IsFat s.disk w.state.disk).size,
      ) in
      let apart : (k : ℕ) → get_elem? (read_fat s.disk) k ≡ some 0 → k ≢ r.parent_cluster_number =
        λ k q x. w.parent_used (subst (λ j. get_elem? (read_fat s.disk) j ≡ some 0) x q) in
      record {
        links = subst (λ l. Links l (c ∷ cs)) (sym fat) h.links;
        count = h.count ∙ sym e;
        bytes =
            contents_cong _ s1.disk (c ∷ cs) (
              All-map (λ k. get_elem? (read_fat s.disk) k ≡ some 0) _ (c ∷ cs)
                (λ k q. kept k (inside k q) (apart k q)) h.free)
            ∙ (h.bytes
                ∙ ap₂ ◌++◌ (ap₂ (load_bytes s.memory) (omega arith) size)
                    (ap (λ k. replicate k 0) (omega (arith, e))));
        table =
            read_table-write_table s1.dir_table_buf r.parent_cluster_number s1.disk h.valid.table
            ∙ entry;
        free = h.free;
        others = λ k lk n1 np q. kept k lk np ∙ h.kept k lk n1 q;
        others_fat = λ k q. ap (λ l. get_elem? l k) fat ∙ h.kept_fat k q;
        rest_fat = λ k q. ap (λ l. get_elem? l k) fat ∙ h.rest_fat k q;
        cached_fat = sym fat;
        memory = h.memory;
        valid = record {
          memory = h.valid.memory;
          disk =
              write_table-IsStorage s1.dir_table_buf r.parent_cluster_number s1.disk h.valid.table
                h.valid.disk;
          fat = h.valid.fat;
          table = h.valid.table;
        };
      }

  loop_runs :
      (m c : ℕ)
      → free_cluster (read_fat s.disk) 0 ≡ some c
      → total_clusters r.buffer_size ≡ suc m
      → 2048 * m < r.buffer_size
      → r.buffer_size ≤ 2048 * suc m
      → (s1 : DriverState) × (cs : List ℕ) × (write_chain
            (total_clusters r.buffer_size)
            r
            (total_clusters r.buffer_size)
            slot
            0
            (claimed c)
          ≡ some s1)
        × Chained r slot 0 (suc m) (claimed c) s1 (c ∷ cs)
  unfolding claimed
  loop_runs m c first e lo hi =
      let room = w.room in
      let (s1, c', cs, found, run, chained) =
        chain_lem r slot m 0 (total_clusters r.buffer_size) (claimed c) (claimed-IsState c)
          w.fat_used (omega (arith, e)) (omega (arith, e)) (omega (arith, e)) (omega (arith, e)) in
      let same : c' ≡ c = let both = sym found ∙ first in cc in
      (
        s1,
        cs,
        ap (λ k. write_chain k r (total_clusters r.buffer_size) slot 0 (claimed c)) e ∙ run,
        subst (λ k. Chained r slot 0 (suc m) (claimed c) s1 (k ∷ cs)) same chained,
      )

  -- For a well-formed state and request, a parent below 512 in use that is neither cluster 1 nor
  -- has an entry with the file's name and extension, a free slot, and more free clusters than the
  -- file needs: writing a file answers 0. Its bytes, padded with zeros, are on the disk in clusters
  -- that were free, linked in order; the parent's slot holds an entry in use with the name, the
  -- extension, the first of the clusters, and the file's size on top of the slot's old one; all
  -- other clusters in use keep their bytes and their entries in the allocation table.
  pub write_creates_file :
      (s' : DriverState) × (c : ℕ) × (cs : List ℕ) × (write r s ≡ reply (pos 0) s')
      × Written r s slot old s' c cs
  write_creates_file =
      let (m, e, lo, hi) = total_clusters_lem r.buffer_size w.is_file in
      let room = w.room in
      let (c, d, first, _, _, fc, _, _) = free_cluster_two (read_fat s.disk) (omega (arith, e)) in
      let (s1, cs, run, chained) = loop_runs m c first e lo hi in
      (synced s1, c, cs, write_file_runs c s1 first run, Written-synced m c cs s1 e chained)

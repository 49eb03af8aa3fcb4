-- ===== src/Fat32/RoundTrip.antt =====
-- `read` after `write`: the bytes of a file come back.
use os_2024_operatingstress.Base.{
  ℕ, suc, ◌+◌, ◌*◌, ◌%◌, ◌^◌, ◌≤◌, ◌<◌, ◌≡◌, refl, sym, ap, ◌∙◌, subst, ◌≢◌, ◌⊎◌, false, some, List,
  [], ◌∷◌, ◌++◌, arith, pos, ltb, length, get_elem?, take, length-append, take-append, take_all,
  lt-length_of_some, All, All-front, All-map, split-set,
}
use os_2024_operatingstress.Base.Bits.{bit_or-shift}
use os_2024_operatingstress.Fat32.Types.{
  DirectoryEntry, DirectoryTable, DriverRequest, IsEntry, IsRequest,
}
use os_2024_operatingstress.Fat32.Links.{Links, contents}
use os_2024_operatingstress.Fat32.Memory.{load_bytes-store_bytes, store_bytes_outside}
use os_2024_operatingstress.Fat32.Driver.{
  DriverState, reply, read_clusters, read_table, read_fat, load_bytes, store_bytes, divceil,
}
use os_2024_operatingstress.Fat32.Driver.Laws.{same_bytes_iff}
use os_2024_operatingstress.Fat32.Driver.Invariant.{
  IsState, read_table-IsTable, read_fat-IsFat, read_clusters-Bytes, load_bytes-Bytes,
}
use os_2024_operatingstress.Fat32.Write.{is_duplicate, total_clusters, claim_entry, write}
use os_2024_operatingstress.Fat32.Write.Search.{free_count}
use os_2024_operatingstress.Fat32.Write.File.{
  CanWrite, Written, file_entry, total_clusters_lem, write_creates_file,
}
use os_2024_operatingstress.Fat32.Read.{read, read_entry, first_cluster}
use os_2024_operatingstress.Fat32.Read.Laws.{NameExt, read_first_match}
use os_2024_operatingstress.Fat32.Read.Chain.{read_chain_lem}

pub not_duplicate-All :
    (r : DriverRequest) (t : DirectoryTable)
    → IsRequest r
    → r.buffer_size ≢ 0
    → All IsEntry t
    → is_duplicate r t ≡ false
    → All (λ x. ¬ NameExt r x) t
unfolding is_duplicate
not_duplicate-All r [] q nz v h = tt
not_duplicate-All r (e ∷ es) q nz v h =
    let names = same_bytes_iff 8 e.name r.name v.0.name q.name in
    let exts = same_bytes_iff 3 e.ext r.ext v.0.ext q.ext in
    (λ m. ground (arith, names.1 m.0, exts.1 m.1), not_duplicate-All r es q nz v.1 (ground arith))

pub free_count-le : (fat : List ℕ) → free_count fat ≤ length fat
free_count-le [] = omega arith
free_count-le (v ∷ vs) = ground (arith, free_count-le vs)

pub divceil-eq-total : (n : ℕ) → n < 2 ^ 32 → divceil n 2048 ≡ total_clusters n
unfolding divceil
divceil-eq-total n h = ground arith

-- `read` of an entry whose chain is linked in the cached table delivers the chain's bytes.
pub read_entry_file :
    (q : DriverRequest) (e : DirectoryEntry) (s : DriverState) (c : ℕ) (cs : List ℕ)
    → IsState s
    → e.attribute ≡ 0
    → e.filesize ≤ q.buffer_size
    → first_cluster e ≡ c
    → divceil e.filesize 2048 % 2 ^ 16 ≡ suc (length cs)
    → All (λ k. k < 512) (c ∷ cs)
    → Links s.fat_table (c ∷ cs)
    → read_entry q e s
      ≡ reply (pos 0) (record s { memory = store_bytes s.memory q.buf (contents s.disk (c ∷ cs)) })
unfolding read_entry
read_entry_file q e s c cs v a f fc n lt h =
    let enough : ltb q.buffer_size e.filesize ≡ false = ground arith in
    let at : q.buf + 0 * 2048 ≡ q.buf = omega arith in
    rw (a, enough, fc, n, read_chain_lem cs c 0 q.buf s v.disk lt h, at) refl

pub length-contents :
    (s : DriverState) (cs : List ℕ) → IsState s → length (contents s.disk cs) ≡ 2048 * length cs
length-contents s [] v = refl
length-contents s (c ∷ cs) v = omega (
  arith,
  length-append (read_clusters s.disk c) (contents s.disk cs),
  (read_clusters-Bytes s.disk c v.disk).0,
  length-contents s cs v,
)

file_entry_first :
    (r : DriverRequest) (c : ℕ) (old : DirectoryEntry)
    → c < 512
    → first_cluster (file_entry r c old) ≡ c
unfolding claim_entry
file_entry_first r c old h =
    omega (arith, bit_or-shift 16 (c % 2 ^ 16) old.cluster_high (omega arith))

module _ {r : DriverRequest} {s : DriverState} {slot : ℕ} {old : DirectoryEntry}
    (w : CanWrite r s slot old) (fresh : old.filesize ≡ 0) (dest room : ℕ)
    (large : r.buffer_size ≤ room) (word : room < 2 ^ 32) where
  -- The state after `read`, from the one after `write`.
  loaded_at : ℕ → List ℕ → DriverState → DriverState
  loaded_at c cs s' = record s' {
    dir_table_buf = read_table s'.disk r.parent_cluster_number;
    memory = store_bytes s'.memory dest (contents s'.disk (c ∷ cs));
  }

  finds :
      (s' : DriverState) (c : ℕ) (cs : List ℕ)
      → Written r s slot old s' c cs
      → read (record r { buf = dest; buffer_size = room }) s'
        ≡ read_entry
            (record r { buf = dest; buffer_size = room })
            (file_entry r c old)
            (record s' { dir_table_buf = read_table s'.disk r.parent_cluster_number })
  unfolding claim_entry
  finds s' c cs h =
      let t : DirectoryTable = read_table s.disk r.parent_cluster_number in
      let v = read_table-IsTable s.disk r.parent_cluster_number w.state.disk in
      let v' = read_table-IsTable s'.disk r.parent_cluster_number h.valid.disk in
      let (xs, ys, e, e', _) =
        split-set t slot (file_entry r c old) (lt-length_of_some t slot w.held) in
      let whole : read_table s'.disk r.parent_cluster_number ≡ xs ++ file_entry r c old ∷ ys =
        h.table ∙ e' in
      let others = not_duplicate-All r t w.request w.is_file v.entries w.is_new in
      let q : IsRequest (record r { buf = dest; buffer_size = room }) = record {
        name = w.request.name;
        ext = w.request.ext;
        name_bytes = w.request.name_bytes;
        ext_bytes = w.request.ext_bytes;
        parent = w.request.parent;
        size = word;
      } in
      read_first_match (record r { buf = dest; buffer_size = room }) s' xs (file_entry r c old) ys q
        (subst (All IsEntry) whole v'.entries) whole
        (All-front (λ x. ¬ NameExt r x) xs _ (subst (All (λ x. ¬ NameExt r x)) e others))
        (take_all r.name 8 w.request.name, take_all r.ext 3 w.request.ext)
      ∙ ap
          (λ l.
            read_entry (record r { buf = dest; buffer_size = room }) (file_entry r c old)
              (record s' { dir_table_buf = l }))
          (sym whole)

  reads :
      (s' : DriverState) (c : ℕ) (cs : List ℕ)
      → Written r s slot old s' c cs
      → read (record r { buf = dest; buffer_size = room }) s' ≡ reply (pos 0) (loaded_at c cs s')
  unfolding claim_entry loaded_at
  reads s' c cs h =
      let wr = w.request in
      let v' = read_table-IsTable s'.disk r.parent_cluster_number h.valid.disk in
      let fat = read_fat-IsFat s.disk w.state.disk in
      let inside : (k : ℕ) → get_elem? (read_fat s.disk) k ≡ some 0 → k < 512 =
        λ k p. omega (arith, lt-length_of_some (read_fat s.disk) k p, fat.size) in
      let size : (old.filesize + r.buffer_size) % 2 ^ 32 ≡ r.buffer_size =
        let lt = wr.size in omega (arith, fresh) in
      let rounds : divceil ((old.filesize + r.buffer_size) % 2 ^ 32) 2048 % 2 ^ 16
          ≡ suc (length cs) =
        let n = h.count in
        let few = w.room in
        omega (
          arith,
          ap (λ k. divceil k 2048) size,
          divceil-eq-total r.buffer_size wr.size,
          free_count-le (read_fat s.disk),
          fat.size,
        ) in
      finds s' c cs h
      ∙ read_entry_file (record r { buf = dest; buffer_size = room }) (file_entry r c old)
          (record s' { dir_table_buf = read_table s'.disk r.parent_cluster_number }) c cs
          (record { memory = h.valid.memory; disk = h.valid.disk; fat = h.valid.fat; table = v' })
          refl (omega (arith, size)) (file_entry_first r c old (inside c h.free.0)) rounds
          (All-map (λ k. get_elem? (read_fat s.disk) k ≡ some 0) (λ k. k < 512) (c ∷ cs) inside
            h.free)
          (subst (λ l. Links l (c ∷ cs)) (sym h.cached_fat) h.links)

  -- Where `write` can create a file in a slot that holds no old size, the file is read back by a
  -- request with the same name and a buffer that is large enough: `write` and `read` both answer 0,
  -- the buffer then holds the bytes written, the disk is as `write` left it, and memory before the
  -- buffer and behind the file's clusters in it is as it was.
  pub read-write :
      (s' s'' : DriverState) × (write r s ≡ reply (pos 0) s')
      × (read (record r { buf = dest; buffer_size = room }) s' ≡ reply (pos 0) s'')
      × (load_bytes s''.memory dest r.buffer_size ≡ load_bytes s.memory r.buf r.buffer_size)
      × (s''.disk ≡ s'.disk)
      × ((a : ℕ)
          → (a < dest) ⊎ (dest + 2048 * total_clusters r.buffer_size ≤ a)
          → s''.memory a ≡ s.memory a)
  unfolding loaded_at
  read-write =
      let (s', c, cs, run, h) = write_creates_file w in
      let (m, e, lo, hi) = total_clusters_lem r.buffer_size w.is_file in
      let size = length-contents s' (c ∷ cs) h.valid in
      let n = h.count in
      let got = load_bytes-Bytes r.buffer_size s.memory r.buf w.state.memory in
      (
        s',
        loaded_at c cs s',
        run,
        reads s' c cs h,
        load_bytes-store_bytes r.buffer_size s'.memory dest (contents s'.disk (c ∷ cs))
              (omega (arith, size, e))
            ∙ (ap (take r.buffer_size) h.bytes
                ∙ take-append (load_bytes s.memory r.buf r.buffer_size) _ r.buffer_size got.0),
        refl,
        λ a p.
            store_bytes_outside s'.memory dest (contents s'.disk (c ∷ cs)) a
              (subst (λ k. (a < dest) ⊎ (dest + k ≤ a)) (omega (arith, size, n)) p)
            ∙ ap (λ f. f a) h.memory,
      )

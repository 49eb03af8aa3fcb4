-- ===== src/Fat32/Files/Read.antt =====
-- `read` of a file that the disk holds.
use os_2024_operatingstress.Base.{
  ℕ, zero, suc, ◌+◌, ◌*◌, ◌%◌, ◌^◌, ◌≤◌, ◌<◌, ◌≡◌, refl, sym, ap, ◌∙◌, subst, ◌⊎◌, List, [], ◌∷◌,
  ◌++◌, arith, pos, length, get_elem?, take, All, All-get, All-map, split-get_elem?, All-below,
}
use os_2024_operatingstress.Base.Bits.{bit_or-shift}
use os_2024_operatingstress.Fat32.Types.{
  DirectoryEntry, DirectoryTable, DriverRequest, IsEntry, IsRequest,
}
use os_2024_operatingstress.Fat32.Links.{Links, contents}
use os_2024_operatingstress.Fat32.Memory.{load_bytes-store_bytes, store_bytes_outside}
use os_2024_operatingstress.Fat32.Driver.{
  DriverState, reply, read_table, read_fat, load_bytes, store_bytes, divceil,
}
use os_2024_operatingstress.Fat32.Driver.Invariant.{
  IsState, read_table-IsTable, cached_table-IsState,
}
use os_2024_operatingstress.Fat32.Read.{read, first_cluster}
use os_2024_operatingstress.Fat32.Read.Laws.{NameExt, read_first_match}
use os_2024_operatingstress.Fat32.RoundTrip.{read_entry_file, length-contents}
use os_2024_operatingstress.Fat32.Files.{File, chain, IsFree, Holds}

pub first_cluster_lem :
    (e : DirectoryEntry) → e.cluster_low < 2 ^ 16 → first_cluster e ≡ e.cluster_low
first_cluster_lem e h = omega (arith, bit_or-shift 16 e.cluster_low e.cluster_high h)

pub take-le : (n : ℕ) (xs : List ℕ) → length (take n xs) ≤ length xs
take-le zero xs = omega arith
take-le (suc n) [] = omega arith
take-le (suc n) (x ∷ xs) = omega (arith, take-le n xs)

-- In a well-formed state whose cached allocation table is the disk's, a file that the disk holds is
-- read by a request in its declared sizes with its name, its extension and a buffer that is large
-- enough: the answer is 0, the buffer then holds the file's bytes, memory before the buffer and
-- behind the file's clusters in it is as it was, and so are the disk and the cached allocation
-- table.
pub read_refines :
    (q : DriverRequest) (s : DriverState) (f : File)
    → IsState s
    → IsRequest q
    → s.fat_table ≡ read_fat s.disk
    → Holds s.disk q.parent_cluster_number f
    → f.name ≡ q.name
    → f.ext ≡ q.ext
    → length f.bytes ≤ q.buffer_size
    → (s' : DriverState) × (read q s ≡ reply (pos 0) s')
      × (load_bytes s'.memory q.buf (length f.bytes) ≡ f.bytes)
      × ((a : ℕ) → (a < q.buf) ⊎ (q.buf + 2048 * length (chain f) ≤ a) → s'.memory a ≡ s.memory a)
      × (s'.disk ≡ s.disk)
      × (s'.fat_table ≡ s.fat_table)
read_refines q s f v hq cached h name ext room =
    let t : DirectoryTable = read_table s.disk q.parent_cluster_number in
    let vt = read_table-IsTable s.disk q.parent_cluster_number v.disk in
    let (xs, ys, whole, n) = split-get_elem? t f.slot h.held in
    let ve : IsEntry h.entry = All-get IsEntry t f.slot vt.entries h.held in
    let front : All (λ x. ¬ NameExt q x) xs =
      All-below (λ x. ¬ NameExt q x) xs (h.entry ∷ ys)
        λ j x lt got m.
          h.before j x (omega arith) (ap (λ l. get_elem? l j) whole ∙ got)
            (m.0 ∙ sym name, m.1 ∙ sym ext) in
    let cached_state : DriverState = record s { dir_table_buf = xs ++ h.entry ∷ ys } in
    let inside : All (λ k. k < 512) (chain f) =
      All-map (IsFree q.parent_cluster_number) (λ k. k < 512) (chain f) (λ k a. a.0) h.apart in
    let done : DriverState = record cached_state {
      memory = store_bytes s.memory q.buf (contents s.disk (chain f));
    } in
    let size = length-contents s (chain f) v in
    (
      done,
      read_first_match q s xs h.entry ys hq (subst (All IsEntry) whole vt.entries) whole front
            (h.named.0 ∙ name, h.named.1 ∙ ext)
          ∙ read_entry_file q h.entry cached_state f.first f.rest
              (subst (λ l. IsState (record s { dir_table_buf = l })) whole
                (cached_table-IsState q.parent_cluster_number s v))
              h.is_file (omega (arith, h.size)) (first_cluster_lem h.entry ve.cluster_low ∙ h.at)
              (ap (λ k. divceil k 2048 % 2 ^ 16) h.size ∙ h.count) inside
              (subst (λ l. Links l (chain f)) (sym cached) h.links),
      load_bytes-store_bytes (length f.bytes) s.memory q.buf (contents s.disk (chain f))
            (omega (arith, take-le (length f.bytes) (contents s.disk (chain f)), ap length h.bytes))
          ∙ h.bytes,
      λ a p.
          store_bytes_outside s.memory q.buf (contents s.disk (chain f)) a
            (subst (λ k. (a < q.buf) ⊎ (q.buf + k ≤ a)) (sym size) p),
      refl,
      refl,
    )

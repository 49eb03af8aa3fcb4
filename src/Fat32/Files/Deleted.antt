-- ===== src/Fat32/Files/Deleted.antt =====
-- What becomes of a file that was deleted: `read` does not look at `user_attribute`.
use os_2024_operatingstress.Base.{
  ℕ, suc, ◌+◌, ◌*◌, ◌%◌, ◌^◌, ◌≤◌, ◌≡◌, refl, sym, ap, ◌∙◌, subst, true, false, some, List, [], ◌∷◌,
  ◌++◌, arith, pos, ltb, if◌then◌else◌, length, get_elem?, set, take, get_elem?-set_self,
  get_elem?-set_ne, lt-length_of_some, All, All-get, split-get_elem?, All-below,
}
use mathlib.Core.List.{append-nil}
use os_2024_operatingstress.Fat32.Types.{DirectoryEntry, DriverRequest, IsEntry, IsRequest}
use os_2024_operatingstress.Fat32.Links.{contents}
use os_2024_operatingstress.Fat32.Memory.{load_bytes-store_bytes}
use os_2024_operatingstress.Fat32.Driver.{
  DriverState, reply, read_table, read_fat, read_clusters, load_bytes, store_bytes, divceil,
}
use os_2024_operatingstress.Fat32.Driver.Invariant.{read_table-IsTable}
use os_2024_operatingstress.Fat32.Delete.{delete, mark_deleted}
use os_2024_operatingstress.Fat32.Delete.Directory.{has}
use os_2024_operatingstress.Fat32.Delete.File.{delete_frees_file}
use os_2024_operatingstress.Fat32.Read.{read, read_entry, read_chain, load_cluster, first_cluster}
use os_2024_operatingstress.Fat32.Read.Laws.{NameExt, read_first_match}
use os_2024_operatingstress.Fat32.Files.{File, Holds}
use os_2024_operatingstress.Fat32.Files.Read.{first_cluster_lem, take-le}
use os_2024_operatingstress.Fat32.Files.Delete.{Chooses, same_entry, Chooses-FileAt}

-- A round of `read` loads its cluster whatever the cluster's entry is.
one_round :
    (c v buf : ℕ) (s : DriverState)
    → get_elem? s.fat_table c ≡ some v
    → read_chain 1 0 c buf s ≡ some (load_cluster (buf + 0 * 2048) c s)
unfolding read_chain
one_round c v buf s h = ground (arith, h)

read_entry_one :
    (q : DriverRequest) (e : DirectoryEntry) (s : DriverState) (c v : ℕ)
    → e.attribute ≡ 0
    → e.filesize ≤ q.buffer_size
    → first_cluster e ≡ c
    → divceil e.filesize 2048 % 2 ^ 16 ≡ 1
    → get_elem? s.fat_table c ≡ some v
    → read_entry q e s
      ≡ reply (pos 0) (record s { memory = store_bytes s.memory q.buf (read_clusters s.disk c) })
unfolding read_entry
read_entry_one q e s c v a f fc n h =
    let enough : ltb q.buffer_size e.filesize ≡ false = ground arith in
    let at : q.buf + 0 * 2048 ≡ q.buf = omega arith in
    rw (a, enough, fc, n, one_round c v q.buf s h, at) refl

has_first : (c : ℕ) (cs : List ℕ) → has c (c ∷ cs) ≡ true
has_first c cs = ground arith

-- A file of one cluster can be read after it was deleted: `delete` answers 0, and then `read`
-- answers 0 too and delivers the bytes of the deleted file, for a request in its declared sizes
-- with the file's name and extension and a buffer that is large enough.
pub read-delete :
    (r q : DriverRequest) (s : DriverState) (f : File)
    → Chooses r s f
    → Holds s.disk r.parent_cluster_number f
    → f.rest ≡ []
    → IsRequest q
    → q.parent_cluster_number ≡ r.parent_cluster_number
    → f.name ≡ q.name
    → f.ext ≡ q.ext
    → length f.bytes ≤ q.buffer_size
    → (s' s'' : DriverState) × (delete r s ≡ reply (pos 0) s')
      × (get_elem? s'.fat_table f.first ≡ some 0)
      × (read q s' ≡ reply (pos 0) s'')
      × (load_bytes s''.memory q.buf (length f.bytes) ≡ f.bytes)
read-delete r q s f h held alone hq parent name ext room =
    let at = Chooses-FileAt h held in
    let (s', run, fat, table, kept, cached, memory, valid) = delete_frees_file at in
    let p = r.parent_cluster_number in
    let before : IsEntry h.e = subst IsEntry (same_entry h held) (
      All-get IsEntry (read_table s.disk p) f.slot
        (read_table-IsTable s.disk p h.state.disk).entries held.held) in
    let gone : DirectoryEntry = mark_deleted h.e in
    let vt = read_table-IsTable s'.disk p valid.disk in
    let after : read_table s'.disk p ≡ set (read_table s.disk p) f.slot gone =
      table
      ∙ (ap (λ t. set t (1 + length h.xs) gone) (sym h.table)
          ∙ ap (λ k. set (read_table s.disk p) k gone) (sym h.slot)) in
    let there : get_elem? (read_table s'.disk p) f.slot ≡ some gone =
      ap (λ t. get_elem? t f.slot) after
      ∙ get_elem?-set_self (read_table s.disk p) f.slot gone
          (lt-length_of_some (read_table s.disk p) f.slot held.held) in
    let (xs, ys, whole, n) = split-get_elem? (read_table s'.disk p) f.slot there in
    let front : All (λ x. ¬ NameExt q x) xs =
      All-below (λ x. ¬ NameExt q x) xs (gone ∷ ys)
        λ j x lt got m.
          held.before j x (omega (arith, n))
            (sym (get_elem?-set_ne (read_table s.disk p) f.slot j gone (omega (arith, n)))
              ∙ (sym (ap (λ t. get_elem? t j) after) ∙ (ap (λ l. get_elem? l j) whole ∙ got)))
            (m.0 ∙ sym name, m.1 ∙ sym ext) in
    let entry = same_entry h held in
    let loaded : DriverState = record s' { dir_table_buf = xs ++ gone ∷ ys } in
    let bytes : read_clusters s'.disk f.first ≡ read_clusters s.disk f.first =
      let a = held.apart.0 in kept f.first a.0 a.2 a.3 in
    let freed : get_elem? (read_fat s'.disk) f.first ≡ some 0 =
      fat f.first
      ∙ ap (λ b. if b then some 0 else get_elem? s.fat_table f.first) (has_first f.first f.rest) in
    let content : take (length f.bytes) (read_clusters s.disk f.first) ≡ f.bytes =
      ap (take (length f.bytes)) (
        sym (append-nil (read_clusters s.disk f.first))
        ∙ ap (λ l. contents s.disk (f.first ∷ l)) (sym alone))
      ∙ held.bytes in
    (
      s',
      record loaded { memory = store_bytes s'.memory q.buf (read_clusters s'.disk f.first) },
      run,
      ap (λ t. get_elem? t f.first) cached ∙ freed,
      read_first_match q s' xs gone ys hq (subst (All IsEntry) whole vt.entries)
            (ap (read_table s'.disk) parent ∙ whole) front
            (
              ap (λ (x : DirectoryEntry). x.name) (sym entry) ∙ (held.named.0 ∙ name),
              ap (λ (x : DirectoryEntry). x.ext) (sym entry) ∙ (held.named.1 ∙ ext),
            )
          ∙ read_entry_one q gone loaded f.first 0 at.is_file
              (subst (λ (x : DirectoryEntry). x.filesize ≤ q.buffer_size) entry
                (omega (arith, held.size)))
              (first_cluster_lem gone before.cluster_low ∙ at.first)
              (at.count ∙ ap (λ l. suc (length l)) alone)
              (ap (λ t. get_elem? t f.first) cached ∙ freed),
      load_bytes-store_bytes (length f.bytes) s'.memory q.buf (read_clusters s'.disk f.first) (
            omega (
              arith,
              take-le (length f.bytes) (read_clusters s.disk f.first),
              ap length content,
              ap length bytes,
            ))
          ∙ (ap (take (length f.bytes)) bytes ∙ content),
    )

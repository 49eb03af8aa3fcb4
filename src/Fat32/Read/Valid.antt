-- ===== src/Fat32/Read/Valid.antt =====
-- `read` and `read_directory` keep the driver's state well formed, whatever they answer.
use os_2024_operatingstress.Base.{
  ℕ, zero, suc, ◌+◌, ◌*◌, ◌%◌, ◌^◌, ◌≡◌, subst, inl, inr, some, [], ◌∷◌, arith, ℤ, pos, negsuc, leb,
  Bool-cases, Option-cases, get_elem?,
}
use os_2024_operatingstress.Fat32.Types.{DirectoryEntry, DirectoryTable, DriverRequest}
use os_2024_operatingstress.Fat32.Driver.{DriverState, reply, read_clusters, read_table, divceil}
use os_2024_operatingstress.Fat32.Driver.Invariant.{
  IsState, reply-IsState, cached_table-IsState, read_clusters-Bytes, store_bytes-byte,
}
use os_2024_operatingstress.Fat32.Read.{
  read, read_chain, read_entry, read_scan, first_cluster, load_cluster, read_directory,
  read_directory_entry, read_directory_scan,
}

load_cluster-IsState : (p c : ℕ) (s : DriverState) → IsState s → IsState (load_cluster p c s)
load_cluster-IsState p c s v = record {
  memory =
      store_bytes-byte s.memory p (read_clusters s.disk c) (read_clusters-Bytes s.disk c v.disk).1
        v.memory;
  disk = v.disk;
  fat = v.fat;
  table = v.table;
}

read_chain-IsState :
    (n j c buf : ℕ) (s s' : DriverState) → IsState s → read_chain n j c buf s ≡ some s' → IsState s'
unfolding read_chain
read_chain-IsState zero j c buf s s' v h = let same : s ≡ s' = cc in subst IsState same v
read_chain-IsState (suc n) j c buf s s' v h =
    let loaded : DriverState = load_cluster (buf + j * 2048) c s in
    let v' : IsState loaded = load_cluster-IsState (buf + j * 2048) c s v in
    elim (Option-cases (get_elem? s.fat_table c)) [
      | inl e ↦ ground (arith, e)
      | inr (next, e) ↦ elim (Bool-cases (leb 0xFFF8 (next % 2 ^ 16))) [
        | inl last ↦ let same : loaded ≡ s' = ground (arith, e, last) in subst IsState same v'
        | inr more ↦
            read_chain-IsState n (j + 1) (next % 2 ^ 16) buf loaded s' v' (ground (arith, e, more))
      ]
    ]

read_entry-IsState :
    (r : DriverRequest) (e : DirectoryEntry) (s s' : DriverState) (code : ℤ)
    → IsState s
    → read_entry r e s ≡ reply code s'
    → IsState s'
unfolding read_entry
read_entry-IsState r e s s' code v h =
    elim (Option-cases
      (read_chain (divceil e.filesize 2048 % 2 ^ 16) 0 (first_cluster e) r.buf s)) [
        | inl p ↦
            ground
              (arith, p, reply-IsState (negsuc 0) code s s' v, reply-IsState (pos 1) code s s' v)
        | inr (t, p) ↦
            let after : reply (pos 0) t ≡ reply code s' → IsState s' =
              reply-IsState (pos 0) code t s' (
                read_chain-IsState (divceil e.filesize 2048 % 2 ^ 16) 0 (first_cluster e) r.buf s t
                  v p) in
            ground (
              arith,
              p,
              after,
              reply-IsState (negsuc 0) code s s' v,
              reply-IsState (pos 1) code s s' v,
            )
      ]

read_scan-IsState :
    (r : DriverRequest) (t : DirectoryTable) (s s' : DriverState) (code : ℤ)
    → IsState s
    → read_scan r t s ≡ reply code s'
    → IsState s'
unfolding read_scan
read_scan-IsState r [] s s' code v h = reply-IsState (pos 2) code s s' v h
read_scan-IsState r (e ∷ es) s s' code v h =
    ground (arith, read_entry-IsState r e s s' code v, read_scan-IsState r es s s' code v)

-- Whatever `read` answers, a well-formed state stays well formed.
pub read-IsState :
    (r : DriverRequest) (s s' : DriverState) (code : ℤ)
    → IsState s
    → read r s ≡ reply code s'
    → IsState s'
unfolding read
read-IsState r s s' code v h =
    read_scan-IsState r (read_table s.disk r.parent_cluster_number) _ s' code
      (cached_table-IsState r.parent_cluster_number s v) h

read_directory_entry-IsState :
    (r : DriverRequest) (e : DirectoryEntry) (s s' : DriverState) (code : ℤ)
    → IsState s
    → read_directory_entry r e s ≡ reply code s'
    → IsState s'
unfolding read_directory_entry
read_directory_entry-IsState r e s s' code v h =
    let loaded : DriverState = load_cluster r.buf e.cluster_low s in
    ground (
      arith,
      reply-IsState (pos 0) code loaded s' (load_cluster-IsState r.buf e.cluster_low s v),
      reply-IsState (pos 1) code s s' v,
    )

read_directory_scan-IsState :
    (r : DriverRequest) (t : DirectoryTable) (s s' : DriverState) (code : ℤ)
    → IsState s
    → read_directory_scan r t s ≡ reply code s'
    → IsState s'
unfolding read_directory_scan
read_directory_scan-IsState r [] s s' code v h = reply-IsState (pos 2) code s s' v h
read_directory_scan-IsState r (e ∷ es) s s' code v h = ground (
  arith,
  read_directory_entry-IsState r e s s' code v,
  read_directory_scan-IsState r es s s' code v,
)

-- Whatever `read_directory` answers, a well-formed state stays well formed.
pub read_directory-IsState :
    (r : DriverRequest) (s s' : DriverState) (code : ℤ)
    → IsState s
    → read_directory r s ≡ reply code s'
    → IsState s'
unfolding read_directory
read_directory-IsState r s s' code v h =
    let t : DirectoryTable = read_table s.disk r.parent_cluster_number in
    elim (Option-cases (get_elem? s.fat_table r.parent_cluster_number)) [
      | inl out ↦ ground (arith, out)
      | inr (x, p) ↦ ground (
        arith,
        p,
        reply-IsState (pos 2) code s s' v,
        read_directory_scan-IsState r t (record s { dir_table_buf = t }) s' code
            (cached_table-IsState r.parent_cluster_number s v),
      )
    ]

-- ===== src/Fat32/Read/Laws.antt =====
-- `read` and `read_directory`: which entry answers, with which code, and what they leave alone.
use os_2024_operatingstress.Base.{
  ℕ, zero, suc, ◌+◌, ◌*◌, ◌^◌, ◌%◌, ◌≡◌, ◌≢◌, ◌==◌, refl, inl, inr, ◌↔◌, true, false, [], ◌∷◌, ◌++◌,
  arith, All, ◌∙◌, some, ℤ, pos, Option, get_elem?, Option-cases, All-front, All-back, ◌&&◌,
}
use os_2024_operatingstress.Fat32.Types.{
  DirectoryEntry, DirectoryTable, DriverRequest, IsEntry, IsRequest,
}
use os_2024_operatingstress.Fat32.Driver.{
  DriverState, reply, read_table, same_bytes, is_used, divceil,
}
use os_2024_operatingstress.Fat32.Driver.Laws.{same_bytes_iff}
use os_2024_operatingstress.Fat32.Read.{
  matches_file, read_entry, read_scan, read, read_chain, load_cluster, read_directory_entry,
  read_directory_scan, read_directory, first_cluster,
}

-- The entry has the name and the extension of the request.
abbrev pub NameExt : DriverRequest → DirectoryEntry → Type 0
NameExt r e = (e.name ≡ r.name) × (e.ext ≡ r.ext)

pub matches_file_iff :
    (r : DriverRequest) (e : DirectoryEntry)
    → IsRequest r
    → IsEntry e
    → (matches_file r e ≡ true) ↔ NameExt r e
unfolding matches_file
matches_file_iff r e hr he =
    let names = same_bytes_iff 8 e.name r.name he.name hr.name in
    let exts = same_bytes_iff 3 e.ext r.ext he.ext hr.ext in
    (
      λ h. (names.0 (ground arith), exts.0 (ground arith)),
      λ h. ground (arith, names.1 h.0, exts.1 h.1),
    )

read_chain_disk :
    (n j cluster buf : ℕ) (s s' : DriverState)
    → read_chain n j cluster buf s ≡ some s'
    → (s'.disk ≡ s.disk) × (s'.fat_table ≡ s.fat_table)
unfolding read_chain
read_chain_disk zero j cluster buf s s' h = ground arith
read_chain_disk (suc n) j cluster buf s s' h = elim (Option-cases (get_elem? s.fat_table cluster)) [
  | inl e ↦ ground (arith, e)
  | inr p ↦ ground (
    arith,
    p.1,
    read_chain_disk n (j + 1) (p.0 % 2 ^ 16) buf (load_cluster (buf + j * 2048) cluster s) s',
  )
]

read_entry_disk :
    (r : DriverRequest) (e : DirectoryEntry) (s s' : DriverState) (code : ℤ)
    → read_entry r e s ≡ reply code s'
    → (s'.disk ≡ s.disk) × (s'.fat_table ≡ s.fat_table)
unfolding read_entry
read_entry_disk r e s s' code h = elim (Option-cases chain) [
  | inl p ↦ ground (arith, p)
  | inr p ↦ ground (
    arith,
    p.1,
    read_chain_disk (divceil e.filesize 2048 % 2 ^ 16) 0 (first_cluster e) r.buf s p.0 p.1,
  )
]
  where
    chain : Option DriverState
    chain = read_chain (divceil e.filesize 2048 % 2 ^ 16) 0 (first_cluster e) r.buf s

read_scan_disk :
    (r : DriverRequest) (t : DirectoryTable) (s s' : DriverState) (code : ℤ)
    → read_scan r t s ≡ reply code s'
    → (s'.disk ≡ s.disk) × (s'.fat_table ≡ s.fat_table)
unfolding read_scan
read_scan_disk r [] s s' code h = ground arith
read_scan_disk r (e ∷ es) s s' code h =
    ground (arith, read_entry_disk r e s s' code, read_scan_disk r es s s' code)

-- Whatever `read` answers, the disk and the cached allocation table are as before.
pub read_disk :
    (r : DriverRequest) (s s' : DriverState) (code : ℤ)
    → read r s ≡ reply code s'
    → (s'.disk ≡ s.disk) × (s'.fat_table ≡ s.fat_table)
unfolding read
read_disk r s s' code h =
    read_scan_disk r (read_table s.disk r.parent_cluster_number) loaded s' code h
  where
    loaded : DriverState
    loaded = record s { dir_table_buf = read_table s.disk r.parent_cluster_number }

read_scan_miss :
    (r : DriverRequest) (xs ys : DirectoryTable) (s : DriverState)
    → All (λ e. matches_file r e ≡ false) xs
    → read_scan r (xs ++ ys) s ≡ read_scan r ys s
unfolding read_scan
read_scan_miss r [] ys s h = refl
read_scan_miss r (x ∷ xs) ys s h = rw h.0 (read_scan_miss r xs ys s h.1)

read_scan_hit :
    (r : DriverRequest) (e : DirectoryEntry) (ys : DirectoryTable) (s : DriverState)
    → matches_file r e ≡ true
    → read_scan r (e ∷ ys) s ≡ read_entry r e s
unfolding read_scan
read_scan_hit r e ys s h = rw h

read_scan_none :
    (r : DriverRequest) (t : DirectoryTable) (s : DriverState)
    → All (λ e. matches_file r e ≡ false) t
    → read_scan r t s ≡ reply (pos 2) s
unfolding read_scan
read_scan_none r [] s h = refl
read_scan_none r (x ∷ xs) s h = rw h.0 (read_scan_none r xs s h.1)

misses :
    (r : DriverRequest) (xs : DirectoryTable)
    → IsRequest r
    → All IsEntry xs
    → All (λ e. ¬ NameExt r e) xs
    → All (λ e. matches_file r e ≡ false) xs
misses r [] hr v h = tt
misses r (e ∷ es) hr v h =
    let lem = matches_file_iff r e hr v.0 in (ground (arith, lem.0, h.0), misses r es hr v.1 h.1)

-- For a request and a table in their declared sizes, `read` turns to the first entry of the parent
-- that has the name and the extension of the request.
pub read_first_match :
    (r : DriverRequest) (s : DriverState) (xs : DirectoryTable) (e : DirectoryEntry)
    (ys : DirectoryTable)
    → IsRequest r
    → All IsEntry (xs ++ e ∷ ys)
    → read_table s.disk r.parent_cluster_number ≡ xs ++ e ∷ ys
    → All (λ x. ¬ NameExt r x) xs
    → NameExt r e
    → read r s ≡ read_entry r e (record s { dir_table_buf = xs ++ e ∷ ys })
unfolding read
read_first_match r s xs e ys hr v t h m = rw t (
    read_scan_miss r xs (e ∷ ys) loaded (misses r xs hr (All-front IsEntry xs (e ∷ ys) v) h)
    ∙ read_scan_hit r e ys loaded ((matches_file_iff r e hr own.0).1 m))
  where
    loaded : DriverState
    loaded = record s { dir_table_buf = xs ++ e ∷ ys }

    own : All IsEntry (e ∷ ys)
    own = All-back IsEntry xs (e ∷ ys) v

-- For a request and a table in their declared sizes, if no entry of the parent has the name and the
-- extension of the request, `read` answers 2 and only caches the directory.
pub read_missing :
    (r : DriverRequest) (s : DriverState)
    → IsRequest r
    → All IsEntry (read_table s.disk r.parent_cluster_number)
    → All (λ e. ¬ NameExt r e) (read_table s.disk r.parent_cluster_number)
    → read r s
      ≡ reply (pos 2) (record s { dir_table_buf = read_table s.disk r.parent_cluster_number })
unfolding read
read_missing r s hr v h = read_scan_none r t (record s { dir_table_buf = t }) (misses r t hr v h)
  where
    t : DirectoryTable
    t = read_table s.disk r.parent_cluster_number

-- The directory `name` in the parent: in use, with that name.
abbrev pub NamedUsed : DriverRequest → DirectoryEntry → Type 0
NamedUsed r e = (e.user_attribute ≡ 0xAA) × (e.name ≡ r.name)

named_iff :
    (r : DriverRequest) (e : DirectoryEntry)
    → IsRequest r
    → IsEntry e
    → ((is_used e && same_bytes e.name r.name 8) ≡ true) ↔ NamedUsed r e
named_iff r e hr he =
    let names = same_bytes_iff 8 e.name r.name he.name hr.name in
    (λ h. (ground arith, names.0 (ground arith)), λ h. ground (arith, names.1 h.1))

module _ (r : DriverRequest) (hr : IsRequest r) where
  directory_scan_miss :
      (xs ys : DirectoryTable) (s : DriverState)
      → All IsEntry xs
      → All (λ e. ¬ NamedUsed r e) xs
      → read_directory_scan r (xs ++ ys) s ≡ read_directory_scan r ys s
  unfolding read_directory_scan
  directory_scan_miss [] ys s v h = refl
  directory_scan_miss (x ∷ xs) ys s v h =
      let lem = named_iff r x hr v.0 in
      let skip : (is_used x && same_bytes x.name r.name 8) ≡ false = ground (arith, lem.0, h.0) in
      rw skip (directory_scan_miss xs ys s v.1 h.1)

  directory_scan_hit :
      (e : DirectoryEntry) (ys : DirectoryTable) (s : DriverState)
      → IsEntry e
      → NamedUsed r e
      → read_directory_scan r (e ∷ ys) s ≡ read_directory_entry r e s
  unfolding read_directory_scan
  directory_scan_hit e ys s v h = rw ((named_iff r e hr v).1 h)

  -- For a request and a table in their declared sizes, in a parent whose cached entry is not empty,
  -- `read_directory` turns to the first entry in use with the requested name.
  pub read_directory_first_match :
      (s : DriverState) (v : ℕ) (xs : DirectoryTable) (e : DirectoryEntry) (ys : DirectoryTable)
      → get_elem? s.fat_table r.parent_cluster_number ≡ some v
      → v ≢ 0
      → All IsEntry (xs ++ e ∷ ys)
      → read_table s.disk r.parent_cluster_number ≡ xs ++ e ∷ ys
      → All (λ x. ¬ NamedUsed r x) xs
      → NamedUsed r e
      → read_directory r s ≡ read_directory_entry r e (record s { dir_table_buf = xs ++ e ∷ ys })
  unfolding read_directory
  read_directory_first_match s v xs e ys g nz w t h m =
      let valid : (v == 0) ≡ false = ground arith in
      rw (g, t, read_directory, valid)
        (directory_scan_miss xs (e ∷ ys) loaded (All-front IsEntry xs (e ∷ ys) w) h
          ∙ directory_scan_hit e ys loaded (All-back IsEntry xs (e ∷ ys) w).0 m)
    where
      loaded : DriverState
      loaded = record s { dir_table_buf = xs ++ e ∷ ys }

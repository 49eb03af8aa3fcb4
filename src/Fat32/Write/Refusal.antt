-- ===== src/Fat32/Write/Refusal.antt =====
-- `write`: names that are taken. The check looks at every entry of the directory, also at those
-- that were deleted, and does not apply to directories.
use os_2024_operatingstress.Base.{
  ℕ, zero, suc, ◌≡◌, refl, ◌≢◌, inl, inr, true, false, some, [], ◌∷◌, arith, ℤ, pos, Option-cases,
  get_elem?,
}
use os_2024_operatingstress.Fat32.Types.{
  DirectoryEntry, DirectoryTable, DriverRequest, IsEntry, IsRequest,
}
use os_2024_operatingstress.Fat32.Driver.{DriverState, reply, read_table, read_fat, same_bytes}
use os_2024_operatingstress.Fat32.Driver.Laws.{same_bytes_iff}
use os_2024_operatingstress.Fat32.Write.{
  free_cluster, free_slot, is_duplicate, write_directory, write_new, write,
}
use os_2024_operatingstress.Fat32.Write.Laws.{loaded, write_valid}

pub not_duplicate_directory :
    (r : DriverRequest) (t : DirectoryTable) → r.buffer_size ≡ 0 → is_duplicate r t ≡ false
unfolding is_duplicate
not_duplicate_directory r [] h = refl
not_duplicate_directory r (e ∷ es) h = ground (arith, not_duplicate_directory r es h)

duplicate_member :
    (r : DriverRequest) (t : DirectoryTable) (i : ℕ) (e : DirectoryEntry)
    → r.buffer_size ≢ 0
    → get_elem? t i ≡ some e
    → same_bytes e.name r.name 8 ≡ true
    → same_bytes e.ext r.ext 3 ≡ true
    → is_duplicate r t ≡ true
unfolding is_duplicate
duplicate_member r [] i e nz at n x = cc
duplicate_member r (y ∷ ys) zero e nz at n x =
    let same : y ≡ e = cc in rw (same, n, x) (ground arith)
duplicate_member r (y ∷ ys) (suc i) e nz at n x =
    ground (arith, duplicate_member r ys i e nz at n x)

-- For a request and an entry in their declared sizes, with a valid parent and a free cluster, which
-- is searched for first, a file is refused with 1 and nothing is written if any entry of the
-- parent, in use or deleted, has its name and extension.
pub write_duplicate :
    (r : DriverRequest) (s : DriverState) (v cluster i : ℕ) (e : DirectoryEntry)
    → IsRequest r
    → IsEntry e
    → get_elem? (read_fat s.disk) r.parent_cluster_number ≡ some v
    → v ≢ 0
    → free_cluster (read_fat s.disk) 0 ≡ some cluster
    → r.buffer_size ≢ 0
    → get_elem? (read_table s.disk r.parent_cluster_number) i ≡ some e
    → e.name ≡ r.name
    → e.ext ≡ r.ext
    → write r s ≡ reply (pos 1) (loaded r s)
unfolding write_new
write_duplicate r s v cluster i e hr he p ne free nz at n x =
    let taken : is_duplicate r (read_table s.disk r.parent_cluster_number) ≡ true =
      duplicate_member r (read_table s.disk r.parent_cluster_number) i e nz at
        ((same_bytes_iff 8 e.name r.name he.name hr.name).1 n)
        ((same_bytes_iff 3 e.ext r.ext he.ext hr.ext).1 x) in
    rw (write_valid r s v p ne, free, taken)

-- A directory is never refused for its name: `write` with size 0 does not answer 1.
pub write_directory_never_exists :
    (r : DriverRequest) (s s' : DriverState) (code : ℤ)
    → r.buffer_size ≡ 0
    → write r s ≡ reply code s'
    → code ≢ pos 1
unfolding write write_new write_directory
write_directory_never_exists r s s' code h run =
    let fresh = not_duplicate_directory r (read_table s.disk r.parent_cluster_number) h in
    elim (Option-cases (get_elem? (read_fat s.disk) r.parent_cluster_number)) [
      | inl out ↦ ground (arith, out)
      | inr p ↦ elim (Option-cases (free_cluster (read_fat s.disk) 0)) [
        | inl full ↦ ground (arith, p.1, full, fresh)
        | inr c ↦ elim (Option-cases (free_slot (read_table s.disk r.parent_cluster_number) 0)) [
          | inl none_left ↦ ground (arith, p.1, c.1, none_left, fresh)
          | inr slot ↦ ground (arith, p.1, c.1, slot.1, fresh)
        ]
      ]
    ]

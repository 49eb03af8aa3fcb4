-- ===== src/Fat32/Read/Keeps.antt =====
-- `read_directory` changes nothing on the disk.
use os_2024_operatingstress.Base.{◌≡◌, inl, inr, [], ◌∷◌, arith, ℤ, Option-cases, get_elem?}
use os_2024_operatingstress.Fat32.Types.{DirectoryEntry, DirectoryTable, DriverRequest}
use os_2024_operatingstress.Fat32.Driver.{DriverState, reply, read_table}
use os_2024_operatingstress.Fat32.Read.{read_directory_entry, read_directory_scan, read_directory}

directory_entry_disk :
    (r : DriverRequest) (e : DirectoryEntry) (s s' : DriverState) (code : ℤ)
    → read_directory_entry r e s ≡ reply code s'
    → (s'.disk ≡ s.disk) × (s'.fat_table ≡ s.fat_table)
unfolding read_directory_entry
directory_entry_disk r e s s' code h = ground arith

directory_scan_disk :
    (r : DriverRequest) (t : DirectoryTable) (s s' : DriverState) (code : ℤ)
    → read_directory_scan r t s ≡ reply code s'
    → (s'.disk ≡ s.disk) × (s'.fat_table ≡ s.fat_table)
unfolding read_directory_scan
directory_scan_disk r [] s s' code h = ground arith
directory_scan_disk r (e ∷ es) s s' code h =
    ground (arith, directory_entry_disk r e s s' code, directory_scan_disk r es s s' code)

-- Whatever `read_directory` answers, the disk and the cached allocation table are as before.
pub read_directory_disk :
    (r : DriverRequest) (s s' : DriverState) (code : ℤ)
    → read_directory r s ≡ reply code s'
    → (s'.disk ≡ s.disk) × (s'.fat_table ≡ s.fat_table)
unfolding read_directory
read_directory_disk r s s' code h =
    let t : DirectoryTable = read_table s.disk r.parent_cluster_number in
    elim (Option-cases (get_elem? s.fat_table r.parent_cluster_number)) [
      | inl out ↦ ground (arith, out)
      | inr p ↦
          ground (arith, p.1, directory_scan_disk r t (record s { dir_table_buf = t }) s' code)
    ]

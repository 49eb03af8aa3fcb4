-- ===== src/Fat32/Write/Valid.antt =====
-- `write` keeps the driver's state well formed, whatever it answers.
use os_2024_operatingstress.Base.{
  ℕ, zero, suc, ◌+◌, ◌-◌, ◌*◌, ◌≤◌, ◌<◌, ◌≡◌, subst, ◌≢◌, inl, inr, some, List, arith, ℤ, pos, ltb,
  Bool-cases, Option-cases, length, get_elem?, drop, length-drop, lt-length_of_some,
}
use os_2024_operatingstress.Fat32.Types.{DriverRequest, IsRequest}
use os_2024_operatingstress.Fat32.Init.{init_directory_table, init_entry, zero_entry}
use os_2024_operatingstress.Fat32.Init.Laws.{init_directory_table-IsTable, init_entry-IsEntry}
use os_2024_operatingstress.Fat32.Driver.{
  DriverState, reply, read_table, write_table, read_fat, load_bytes,
}
use os_2024_operatingstress.Fat32.Driver.Invariant.{
  IsState, reply-IsState, read_table-IsTable, read_fat-IsFat, set-IsFat, set-IsTable,
  write_table-IsStorage, write_fat-IsStorage, load_bytes-Bytes,
}
use os_2024_operatingstress.Fat32.Write.{
  free_cluster, free_slot, update_slot, claim_entry, write_link, write_end, write_chain,
  total_clusters, write_file, write_directory, write_new, write,
}
use os_2024_operatingstress.Fat32.Write.Laws.{find_empty_lem, loaded}
use os_2024_operatingstress.Fat32.Write.Slot.{update_slot-IsTable, placed-IsState}
use os_2024_operatingstress.Fat32.Write.Chain.{last_bytes, last_bytes-Bytes}
use os_2024_operatingstress.Fat32.Write.File.{claim_entry-IsEntry, total_clusters_lem}

-- A search finds a cluster of the table.
free_cluster-lt : (fat : List ℕ) (k c : ℕ) → free_cluster fat k ≡ some c → c < length fat
unfolding free_cluster
free_cluster-lt fat k c h =
    let (j, at, free, _) = find_empty_lem (drop k fat) k c h in
    omega (arith, at, lt-length_of_some (drop k fat) j free, length-drop k fat)

module _ (r : DriverRequest) (slot i c : ℕ) (s : DriverState) (v : IsState s) where
  write_link-IsState : (d : ℕ) → d < 512 → IsState (write_link r slot i c d s)
  unfolding write_link
  write_link-IsState d lt =
      let got = load_bytes-Bytes 2048 s.memory (r.buf + 2048 * i) v.memory in
      placed-IsState slot c d (load_bytes s.memory (r.buf + 2048 * i) 2048) 2048 s v got.0 got.1
        (omega arith)

  write_end-IsState : r.buffer_size ≤ 2048 * (i + 1) → IsState (write_end r slot i c s)
  unfolding write_end
  write_end-IsState hi =
      let left : ℕ = r.buffer_size - 2048 * i in
      let (size, b) = last_bytes-Bytes s.memory (r.buf + 2048 * i) left v.memory (omega arith) in
      placed-IsState slot c 0x0FFFFFFF (last_bytes s.memory (r.buf + 2048 * i) left) left s v size b
        (omega arith)

write_chain-IsState :
    (n : ℕ) (r : DriverRequest) (total slot i : ℕ) (s s' : DriverState)
    → total ≡ i + n
    → r.buffer_size ≤ 2048 * total
    → IsState s
    → write_chain n r total slot i s ≡ some s'
    → IsState s'
unfolding write_chain
write_chain-IsState zero r total slot i s s' e hi v h =
    let same : s ≡ s' = cc in subst IsState same v
write_chain-IsState (suc n) r total slot i s s' e hi v h =
    elim (Option-cases (free_cluster s.fat_table 0)) [
      | inl p ↦ ground (arith, p)
      | inr (c, p) ↦ elim (Option-cases (free_cluster s.fat_table (c + 1))) [
        | inl q ↦ ground (arith, p, q)
        | inr (d, q) ↦
            let lt : d < 512 = omega (arith, free_cluster-lt s.fat_table (c + 1) d q, v.fat.size) in
            elim (Bool-cases (ltb i (total - 1))) [
              | inl more ↦
                  write_chain-IsState n r total slot (i + 1) (write_link r slot i c d s) s'
                    (omega (arith, e)) hi (write_link-IsState r slot i c s v d lt)
                    (rw (p, q, more) at h)
              | inr last ↦
                  write_chain-IsState n r total slot (i + 1) (write_end r slot i c s) s'
                    (omega (arith, e)) hi (write_end-IsState r slot i c s v (ground (arith, e)))
                    (rw (p, q, last) at h)
            ]
      ]
    ]

pub loaded-IsState : (r : DriverRequest) (s : DriverState) → IsState s → IsState (loaded r s)
loaded-IsState r s v = record {
  memory = v.memory;
  disk = v.disk;
  fat = read_fat-IsFat s.disk v.disk;
  table = read_table-IsTable s.disk r.parent_cluster_number v.disk;
}

module _ (r : DriverRequest) (c slot : ℕ) (s s' : DriverState) (code : ℤ) (q : IsRequest r)
    (v : IsState s) where
  write_directory-IsState : write_directory r c slot s ≡ reply code s' → IsState s'
  unfolding write_directory init_directory_table
  write_directory-IsState h =
      let fat = set-IsFat s.fat_table c 0x0FFFFFFF v.fat (omega arith) in
      let own = init_directory_table-IsTable r.name c q.name q.name_bytes in
      let table =
        set-IsTable s.dir_table_buf slot (init_entry zero_entry r.name c) v.table
          (init_entry-IsEntry r.name c q.name q.name_bytes) in
      reply-IsState (pos 0) code _ s'
        (record {
          memory = v.memory;
          disk =
              write_table-IsStorage _ r.parent_cluster_number _ table
                (write_table-IsStorage _ c _ own (write_fat-IsStorage _ s.disk fat v.disk));
          fat = fat;
          table = table;
        })
        h

  write_file-IsState : r.buffer_size ≢ 0 → write_file r c slot s ≡ reply code s' → IsState s'
  unfolding write_file
  write_file-IsState nz h =
      let start : DriverState = record s {
        dir_table_buf = update_slot s.dir_table_buf slot (claim_entry r c);
      } in
      let v' : IsState start = record {
        memory = v.memory;
        disk = v.disk;
        fat = v.fat;
        table =
            update_slot-IsTable s.dir_table_buf slot (claim_entry r c) v.table
              (λ e. claim_entry-IsEntry r c e q);
      } in
      let n : ℕ = total_clusters r.buffer_size in
      let (m, e, lo, hi) = total_clusters_lem r.buffer_size nz in
      elim (Option-cases (write_chain n r n slot 0 start)) [
        | inl p ↦ ground (arith, p)
        | inr (t, p) ↦
            let w =
              write_chain-IsState n r n slot 0 start t (omega arith) (omega (arith, e)) v' p in
            let t' : DriverState = record t {
              disk = write_table t.dir_table_buf r.parent_cluster_number t.disk;
            } in
            let w' : IsState t' = record {
              memory = w.memory;
              disk =
                  write_table-IsStorage t.dir_table_buf r.parent_cluster_number t.disk w.table
                    w.disk;
              fat = w.fat;
              table = w.table;
            } in
            ground (arith, p, reply-IsState (pos 0) code t' s' w')
      ]

-- Whatever `write` answers to a request in its declared sizes, a well-formed state stays well
-- formed.
pub write-IsState :
    (r : DriverRequest) (s s' : DriverState) (code : ℤ)
    → IsRequest r
    → IsState s
    → write r s ≡ reply code s'
    → IsState s'
unfolding write write_new
write-IsState r s s' code q v h =
    let w = loaded-IsState r s v in
    elim (Option-cases (get_elem? (read_fat s.disk) r.parent_cluster_number)) [
      | inl out ↦ ground (arith, out)
      | inr (x, p) ↦ elim (Option-cases (free_cluster (read_fat s.disk) 0)) [
        | inl full ↦ ground (arith, p, full, reply-IsState (pos 2) code (loaded r s) s' w)
        | inr (c, f) ↦
            elim (Option-cases (free_slot (read_table s.disk r.parent_cluster_number) 0)) [
              | inl none_left ↦ ground (
                arith,
                p,
                f,
                none_left,
                reply-IsState (pos 2) code (loaded r s) s' w,
                reply-IsState (pos 1) code (loaded r s) s' w,
              )
              | inr (slot, k) ↦ ground (
                arith,
                p,
                f,
                k,
                reply-IsState (pos 2) code (loaded r s) s' w,
                reply-IsState (pos 1) code (loaded r s) s' w,
                write_directory-IsState r c slot (loaded r s) s' code q w,
                write_file-IsState r c slot (loaded r s) s' code q w,
              )
            ]
      ]
    ]

-- ===== src/Shell/Parse/Looks.antt =====
-- The commands that only look, "cd", "ls", "cat" and "find": what they keep.
use os_2024_operatingstress.Base.{
  ℕ, zero, suc, ◌+◌, ◌-◌, ◌*◌, ◌^◌, ◌%◌, ◌<◌, ◌≡◌, ◌≢◌, ap, sym, subst, inl, inr, length, set, All,
  Bool-cases, ◌∙◌, true, false, Option, none, some, List, [], ◌∷◌, arith, ltb, ◌==◌, if◌then◌else◌,
  ltb→lt, Ends, Ends-some, Ends-bind, Ends-if, ◌>>=◌, get_elem?, take, drop, length-set, All-set,
}
use os_2024_operatingstress.Disk.{Storage}
use os_2024_operatingstress.Fat32.Types.{
  DriverRequest, cluster_size, attr_subdirectory, uattr_not_empty,
}
use os_2024_operatingstress.Fat32.Codec.Bounds.{Bytes}
use os_2024_operatingstress.Fat32.Driver.{load_bytes, store_bytes, same_bytes}
use os_2024_operatingstress.Fat32.Read.{read, read_directory}
use os_2024_operatingstress.Fat32.Driver.Invariant.{load_bytes-Bytes}
use os_2024_operatingstress.Shell.{
  Shell, Frame, codes, call, print_str, print_at, scan_ext, copy_name, zero_buffer, entry_at,
  entry_attribute, entry_user_attribute, entry_cluster,
}
use os_2024_operatingstress.Shell.Valid.{
  Looks, print_str-Looks, print_at-Looks, store_bytes-Looks, zero_buffer-Looks, call-read-Looks,
  call-read_directory-Looks, entry_cluster-lt,
}
use os_2024_operatingstress.Shell.Navigate.{
  store_at, enter_directory, cd_up, cd_found, cd_down, cd, listing_parent, ls_entry, ls_loop, ls,
  scan_end, find_answer, find,
}
use os_2024_operatingstress.Shell.Files.{file_request, cat}

-- A message ends a command.
tells-Looks :
    (d : Storage) (buf : List ℕ) (color : ℕ) (sh : Shell)
    → Looks d sh
    → Ends (Looks d) (some (print_str buf color sh))
tells-Looks d buf color sh v = Ends-some (Looks d) _ (print_str-Looks d buf color sh v)

store_at_lem :
    (i x : ℕ) (xs ys : List ℕ) → store_at i x xs ≡ some ys → (i < length xs) × (set xs i x ≡ ys)
unfolding store_at
store_at_lem i x xs ys h = elim (Bool-cases (ltb i (length xs))) [
  | inl e ↦ (ltb→lt _ _ e, let q = rw e at h in cc)
  | inr e ↦ let q = rw e at h in cc
]

enter_directory-Looks :
    (d : Storage) (e : ℕ) (sh : Shell) → Looks d sh → Ends (Looks d) (enter_directory e sh)
unfolding enter_directory
enter_directory-Looks d e sh v =
    let depth : ℕ = (sh.depth + 1) % 2 ^ 32 in
    Ends-bind (Looks d) (store_at depth (entry_cluster sh e) sh.list_cluster) _ λ clusters e1.
      Ends-bind (Looks d) (store_at depth e sh.list_dir) _ λ dirs e2.
        let (room, same) = store_at_lem depth (entry_cluster sh e) sh.list_cluster clusters e1 in
        let (room', same') = store_at_lem depth e sh.list_dir dirs e2 in
        Ends-some (Looks d) _ (record {
          valid = record {
            fs = v.valid.fs;
            depth = omega (arith, room, v.valid.list_cluster);
            list_cluster =
                ap length (sym same)
                ∙ (length-set sh.list_cluster depth (entry_cluster sh e) ∙ v.valid.list_cluster);
            list_dir = ap length (sym same') ∙ (length-set sh.list_dir depth e ∙ v.valid.list_dir);
            clusters = subst (All (λ c. c < 2 ^ 32)) same (
                All-set (λ c. c < 2 ^ 32) sh.list_cluster depth v.valid.clusters
                  (entry_cluster-lt sh e v.valid));
          };
          disk = v.disk;
        })

cd_up-Looks : (d : Storage) (sh : Shell) → Looks d sh → Ends (Looks d) (cd_up sh)
unfolding cd_up
cd_up-Looks d sh v =
    Ends-if (Looks d) (sh.depth == 0) _ _
      (λ top. tells-Looks d (codes "Udah paling ujung bos") 0b1101 sh v)
      (λ below.
        Ends-bind (Looks d) (get_elem? sh.list_dir ((sh.depth + (2 ^ 32 - 1)) % 2 ^ 32)) _ λ dir e.
          print_at-Looks d 256 dir 0xF _ (record {
            valid = record {
              fs = v.valid.fs;
              depth =
                  let on : sh.depth ≢ 0 = ground (arith, below) in omega (arith, on, v.valid.depth);
              list_cluster = v.valid.list_cluster;
              list_dir = v.valid.list_dir;
              clusters = v.valid.clusters;
            };
            disk = v.disk;
          }))

cd_found-Looks :
    (d : Storage) (table : ℕ) (found : Option ℕ) (sh : Shell)
    → Looks d sh
    → Ends (Looks d) (cd_found table found sh)
unfolding cd_found
cd_found-Looks d table none sh v = tells-Looks d (codes "Folder tidak ditemukan\n") 0b1100 sh v
cd_found-Looks d table (some i) sh v =
    Ends-if (Looks d) (entry_attribute sh (entry_at table i) == attr_subdirectory) _ _
      (λ folder. enter_directory-Looks d (entry_at table i) sh v)
      (λ file. tells-Looks d (codes "Bukan sebuah folder\n") 0b1100 sh v)

-- What "cd", "ls" and "find" do with the table that they ask for.
asks-Looks :
    (d : Storage) (table word : ℕ) (q : DriverRequest) (sh : Shell) (f : ℕ × Shell → Option Shell)
    → Looks d sh
    → ((r : ℕ × Shell) → Looks d r.1 → Ends (Looks d) (f r))
    → Ends
        (Looks d)
        (call (read_directory q (zero_buffer table sh).fs) word (zero_buffer table sh) >>= f)
asks-Looks d table word q sh f v h =
    let cleared : Shell = zero_buffer table sh in
    Ends-bind (Looks d) (call (read_directory q cleared.fs) word cleared) f
      λ r e. h r (call-read_directory-Looks d q word cleared (zero_buffer-Looks d table sh v) r e)

pub cd-Looks :
    (d : Storage) (frame : Frame) (command : List ℕ) (sh : Shell)
    → Looks d sh
    → Ends (Looks d) (cd frame command sh)
unfolding cd cd_down
cd-Looks d frame command sh v =
    Ends-if (Looks d) (same_bytes (46 ∷ 46 ∷ []) (drop 3 command) 2) _ _ (λ up. cd_up-Looks d sh v)
      (λ down. Ends-bind (Looks d) (get_elem? sh.list_cluster sh.depth) _ λ parent e.
        Ends-bind (Looks d) (get_elem? sh.list_dir sh.depth) _ λ dir e2.
          asks-Looks d frame.table frame.retcode _ sh _ v
            λ r w. cd_found-Looks d frame.table _ r.1 w)

ls_entry-Looks :
    (d : Storage) (dir : ℕ) (name : List ℕ) (e : ℕ) (sh : Shell)
    → Bytes name
    → Looks d sh
    → Ends (Looks d) (ls_entry dir name e sh)
unfolding ls_entry
ls_entry-Looks d dir name e sh h v = Ends-bind (Looks d) _ _ λ t listed.
    let w : Looks d t =
      Ends-if (Looks d) (entry_user_attribute sh e == uattr_not_empty) _ _
        (λ used.
          Ends-bind (Looks d) (print_at 256 e 0b1011 sh) _ λ s' shown.
            tells-Looks d (codes " ") 0 s' (print_at-Looks d 256 e 0b1011 sh v s' shown))
        (λ free. Ends-some (Looks d) sh v) t listed in
    Ends-some (Looks d) _
      (elim (t.fs.memory e == 0)
        as (λ c. Looks d (
          if c
          then record t { fs = record (t.fs) { memory = store_bytes t.fs.memory dir name } }
          else t)) [ true ↦ store_bytes-Looks d dir name t h w | false ↦ w ])

ls_loop-Looks :
    (d : Storage) (dir : ℕ) (name : List ℕ) (table n i : ℕ) (sh : Shell)
    → Bytes name
    → Looks d sh
    → Ends (Looks d) (ls_loop dir name table n i sh)
unfolding ls_loop
ls_loop-Looks d dir name table zero i sh h v = Ends-some (Looks d) sh v
ls_loop-Looks d dir name table (suc n) i sh h v =
    Ends-bind (Looks d) (ls_entry dir name (entry_at table i) sh) _ λ t e.
      ls_loop-Looks d dir name table n (i + 1) t h
        (ls_entry-Looks d dir name (entry_at table i) sh h v t e)

pub ls-Looks :
    (d : Storage) (frame : Frame) (sh : Shell) → Looks d sh → Ends (Looks d) (ls frame sh)
unfolding ls
ls-Looks d frame sh v = Ends-bind (Looks d) (listing_parent sh) _ λ parent e.
    Ends-bind (Looks d) (get_elem? sh.list_dir sh.depth) _ λ dir e2.
      let name : Bytes (load_bytes sh.fs.memory dir 8) =
        (load_bytes-Bytes 8 sh.fs.memory dir v.valid.fs.memory).1 in
      asks-Looks d frame.table frame.retcode _ sh _ v λ r w.
        Ends-if (Looks d) (r.0 == 0) _ _
          (λ listed.
            ls_loop-Looks d dir (load_bytes sh.fs.memory dir 8) frame.table 64 0 r.1 name w)
          (λ refused.
            Ends-if (Looks d) (r.0 == 1) _ _
              (λ one. tells-Looks d (codes "Not a folder") 0b1100 r.1 w)
              (λ more.
                Ends-if (Looks d) (r.0 == 2) _ _
                  (λ two. tells-Looks d (codes "Not found") 0b1100 r.1 w)
                  (λ other. tells-Looks d (codes "Error") 0b1100 r.1 w)))

find_answer-Looks :
    (d : Storage) (target : List ℕ) (found : Option ℕ) (sh : Shell)
    → Looks d sh
    → Ends (Looks d) (find_answer target found sh)
unfolding find_answer
find_answer-Looks d target none sh v = tells-Looks d (codes "Tidak ditemukan") 0b1100 sh v
find_answer-Looks d target (some i) sh v =
    tells-Looks d target 6 _ (print_str-Looks d (codes "Ditemukan ") 0b1001 sh v)

pub find-Looks :
    (d : Storage) (frame : Frame) (command : List ℕ) (sh : Shell)
    → Looks d sh
    → Ends (Looks d) (find frame command sh)
unfolding find
find-Looks d frame command sh v = Ends-bind (Looks d) (scan_end (drop 5 command)) _ λ b e0.
    Ends-bind (Looks d) (listing_parent sh) _ λ parent e.
      Ends-bind (Looks d) (get_elem? sh.list_dir sh.depth) _ λ dir e2.
        asks-Looks d frame.table frame.retcode _ sh _ v λ r w.
          Ends-if (Looks d) (r.0 == 0) _ _
            (λ read. find_answer-Looks d (take b.0 (drop 5 command)) _ r.1 w)
            (λ refused. find_answer-Looks d (take b.0 (drop 5 command)) none r.1 w)

pub cat-Looks :
    (d : Storage) (frame : Frame) (command : List ℕ) (sh : Shell)
    → Looks d sh
    → Ends (Looks d) (cat frame command sh)
unfolding cat
cat-Looks d frame command sh v =
    Ends-bind (Looks d) (get_elem? sh.list_cluster sh.depth) _ λ parent e.
      Ends-bind (Looks d) (scan_ext (drop 4 command)) _ λ x e1.
        Ends-bind (Looks d) (copy_name (drop 4 command) x.0) _ λ name e2.
          let q : DriverRequest = file_request frame parent name x.1 in
          Ends-bind (Looks d) (call (read q sh.fs) frame.retcode sh) _ λ r e3.
            let w = call-read-Looks d q frame.retcode sh v r e3 in
            Ends-if (Looks d) (r.0 == 0) _ _
              (λ read.
                Ends-bind (Looks d) (print_at (5 * cluster_size) frame.cl 0b1111 r.1) _ λ t shown.
                  tells-Looks d [] 0b1111 t
                    (print_at-Looks d (5 * cluster_size) frame.cl 0b1111 r.1 w t shown))
              (λ refused.
                Ends-if (Looks d) (r.0 == 1) _ _
                  (λ one. tells-Looks d (codes "Bukan File ey") 0b1100 r.1 w)
                  (λ more.
                    Ends-if (Looks d) (r.0 == 2) _ _
                      (λ two. tells-Looks d (codes "Gaada filenya") 0b1100 r.1 w)
                      (λ other. tells-Looks d (codes "Teuing error naon") 0b1100 r.1 w)))

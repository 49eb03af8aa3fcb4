-- ===== src/Shell/Parse/Moves.antt =====
-- The commands "cd" and "mv": what a change of directory keeps, and which names are moved.
use os_2024_operatingstress.Base.{
  ◌⊎◌, ◌≢◌, Bool-cases, get_elem?-some, ℕ, ◌+◌, ◌-◌, ◌≤◌, ◌<◌, ◌≡◌, refl, ap, ◌∙◌, inl, inr, true,
  false, none, some, List, arith, ltb, ◌==◌, lt→ltb, Option-cases, Ends, Ends-some, Ends-bind,
  get_elem?, set, drop, get_elem?-set_ne, get_elem?-set_self, length, ◌%◌, ◌^◌,
}
use os_2024_operatingstress.Strings.{strlen}
use os_2024_operatingstress.Fat32.Types.{DriverRequest}
use os_2024_operatingstress.Fat32.Driver.{load_bytes}
use os_2024_operatingstress.Fat32.Read.{read}
use os_2024_operatingstress.Shell.{
  Shell, Frame, codes, call, print_str, print_at, copy_name, get_ext, entry_cluster,
}
use os_2024_operatingstress.Shell.Navigate.{directory_request, store_at, enter_directory, cd_up}
use os_2024_operatingstress.Shell.Files.{file_request, read_message, copy_to, copy, mv}

-- The length that `copy` answers is the one before the dot.
copy_length :
    (frame : Frame) (command : List ℕ) (sh : Shell) (x : ℕ × List ℕ)
    → get_ext (drop 3 command) ≡ some x
    → Ends (λ (r : ℕ × Shell). r.0 ≡ x.0) (copy frame command sh)
unfolding copy
copy_length frame command sh x ext =
    let P : ℕ × Shell → Type 0 = λ r. r.0 ≡ x.0 in
    Ends-bind P (get_elem? sh.list_cluster sh.depth) _ λ parent e.
      Ends-bind P (get_ext (drop 3 command)) _ λ y e1.
        Ends-bind P (copy_name (drop 3 command) y.0) _ λ name e2.
          Ends-bind P (get_elem? sh.list_dir sh.depth) _ λ dir e3.
            Ends-bind P (strlen (load_bytes sh.fs.memory dir 256)) _ λ n e4.
              Ends-bind P (copy_name (load_bytes sh.fs.memory dir n) n) _ λ dir_name e5.
                let request : DriverRequest = file_request frame parent name y.1 in
                let there : DriverRequest = directory_request frame.table dir_name parent in
                Ends-bind P (call (read request sh.fs) frame.retcode sh) _ λ r e6.
                  let told : Shell = print_str (read_message r.0) 0b1001 r.1 in
                  Ends-bind P (copy_to frame request there (drop (y.0 + 8) command) told) _ λ t e7.
                    Ends-some P (y.0, t)
                      (let same : y ≡ x = cc in ap (λ (z : ℕ × List ℕ). z.0) same)

-- A name with more than four characters before its dot is never moved: "mv" faults, since it copies
-- twice as many bytes to the eight of the name.
pub mv_long_name :
    (frame : Frame) (command : List ℕ) (sh : Shell) (x : ℕ × List ℕ)
    → get_ext (drop 3 command) ≡ some x
    → 4 < x.0
    → mv frame command sh ≡ none
unfolding mv copy_name
mv_long_name frame command sh x ext long =
    let never : Ends (λ (t : Shell). some t ≡ none) (mv frame command sh) =
      Ends-bind (λ (t : Shell). some t ≡ none) (copy frame command sh) _
        λ c e.
          Ends-bind (λ (t : Shell). some t ≡ none) (get_elem? sh.list_cluster sh.depth) _
            λ parent e1.
              Ends-bind (λ (t : Shell). some t ≡ none) (get_ext (drop 3 command)) _
                λ y e2.
                  Ends-bind (λ (t : Shell). some t ≡ none) (copy_name (drop 3 command) (c.0 + y.0))
                    _
                    λ name e3.
                      let same : y ≡ x = cc in
                      let twice : c.0 ≡ x.0 = copy_length frame command sh x ext c e in
                      let length : y.0 ≡ x.0 = ap (λ (z : ℕ × List ℕ). z.0) same in
                      ground (arith, twice, length, e3) in
    elim (Option-cases (mv frame command sh)) [ inl e ↦ e | inr (t, e) ↦ e ∙ never t e ]

cd_up_below :
    (sh : Shell) (k dir n : ℕ)
    → (sh.depth == 0) ≡ false
    → (sh.depth + (2 ^ 32 - 1)) % 2 ^ 32 ≡ k
    → get_elem? sh.list_dir k ≡ some dir
    → strlen (load_bytes sh.fs.memory dir 256) ≡ some n
    → cd_up sh
      ≡ some (
          print_str
            (load_bytes sh.fs.memory dir n)
            0xF
            (print_str (codes "Berhasil pindah ke ") 0b1001 (record sh { depth = k })))
unfolding cd_up print_at
cd_up_below sh k dir n below up held end = rw (below, up, held, end) refl

-- With a depth below 100, 100 places for the names, and names above the current directory that end
-- within 256 bytes: "cd .." returns; the depth is one less, or 0 if it was 0, and the file system
-- and both arrays are as before.
pub cd_up_returns :
    (sh : Shell)
    → sh.depth < 100
    → length sh.list_dir ≡ 100
    → ((i dir : ℕ)
        → i < sh.depth
        → get_elem? sh.list_dir i ≡ some dir
        → (n : ℕ) × (strlen (load_bytes sh.fs.memory dir 256) ≡ some n))
    → (t : Shell) × (cd_up sh ≡ some t)
      × ((t.depth + 1 ≡ sh.depth) ⊎ ((t.depth ≡ 0) × (sh.depth ≡ 0)))
      × (t.fs ≡ sh.fs)
      × (t.list_cluster ≡ sh.list_cluster)
      × (t.list_dir ≡ sh.list_dir)
unfolding cd_up
cd_up_returns sh small places ended = elim (Bool-cases (sh.depth == 0)) [
  | inl top ↦
      let root : sh.depth ≡ 0 = ground (arith, top) in
      (
        print_str (codes "Udah paling ujung bos") 0b1101 sh,
        rw top refl,
        inr (root, root),
        refl,
        refl,
        refl,
      )
  | inr below ↦
      let on : sh.depth ≢ 0 = ground (arith, below) in
      let up : (sh.depth + (2 ^ 32 - 1)) % 2 ^ 32 ≡ sh.depth - 1 = omega (arith, on) in
      let (dir, held) = get_elem?-some sh.list_dir (sh.depth - 1) (omega (arith, on)) in
      let (n, end) = ended (sh.depth - 1) dir (omega (arith, on)) held in
      let above : Shell = record sh { depth = sh.depth - 1 } in
      (
        print_str (load_bytes sh.fs.memory dir n) 0xF
            (print_str (codes "Berhasil pindah ke ") 0b1001 above),
        cd_up_below sh (sh.depth - 1) dir n below up held end,
        inl (omega (arith, on)),
        refl,
        refl,
        refl,
      )
]

-- A directory can be entered below depth 99, with 100 places in both arrays: then the depth is one
-- more, and the places at that depth hold the cluster and the name's address of its entry. Where
-- the name of the directory before ends within 256 bytes, "cd .." then comes back: the depth is as
-- before, and so are the clusters and the names up to it and the file system.
pub cd_up-enter_directory :
    (e dir n : ℕ) (sh : Shell)
    → sh.depth + 1 < 100
    → length sh.list_cluster ≡ 100
    → length sh.list_dir ≡ 100
    → get_elem? sh.list_dir sh.depth ≡ some dir
    → strlen (load_bytes sh.fs.memory dir 256) ≡ some n
    → (t u : Shell) × (enter_directory e sh ≡ some t)
      × (t.depth ≡ sh.depth + 1)
      × (get_elem? t.list_cluster t.depth ≡ some (entry_cluster sh e))
      × (get_elem? t.list_dir t.depth ≡ some e)
      × (t.fs ≡ sh.fs)
      × (cd_up t ≡ some u)
      × (u.depth ≡ sh.depth)
      × (u.fs ≡ sh.fs)
      × ((i : ℕ) → i ≤ sh.depth → get_elem? u.list_cluster i ≡ get_elem? sh.list_cluster i)
      × ((i : ℕ) → i ≤ sh.depth → get_elem? u.list_dir i ≡ get_elem? sh.list_dir i)
unfolding enter_directory cd_up print_at store_at
cd_up-enter_directory e dir n sh small nc nd held ended =
    let next : (sh.depth + 1) % 2 ^ 32 ≡ sh.depth + 1 = omega arith in
    let below : Shell = record sh {
      depth = sh.depth + 1;
      list_cluster = set sh.list_cluster (sh.depth + 1) (entry_cluster sh e);
      list_dir = set sh.list_dir (sh.depth + 1) e;
    } in
    let above : Shell = record below { depth = sh.depth } in
    let back : (sh.depth + 1 + (2 ^ 32 - 1)) % 2 ^ 32 ≡ sh.depth = omega arith in
    let kept : get_elem? (set sh.list_dir (sh.depth + 1) e) sh.depth ≡ some dir =
      get_elem?-set_ne sh.list_dir (sh.depth + 1) sh.depth e (omega arith) ∙ held in
    let off : (sh.depth + 1 == 0) ≡ false = ground arith in
    let on : ltb (sh.depth + 1) (length sh.list_cluster) ≡ true = lt→ltb _ _ (omega arith) in
    let on' : ltb (sh.depth + 1) (length sh.list_dir) ≡ true = lt→ltb _ _ (omega arith) in
    (
      below,
      print_str (load_bytes sh.fs.memory dir n) 0xF
          (print_str (codes "Berhasil pindah ke ") 0b1001 above),
      rw (next, on, on') refl,
      refl,
      get_elem?-set_self sh.list_cluster (sh.depth + 1) (entry_cluster sh e) (omega arith),
      get_elem?-set_self sh.list_dir (sh.depth + 1) e (omega arith),
      refl,
      rw (off, back, kept, ended) refl,
      refl,
      refl,
      λ i h. get_elem?-set_ne sh.list_cluster (sh.depth + 1) i (entry_cluster sh e) (omega arith),
      λ i h. get_elem?-set_ne sh.list_dir (sh.depth + 1) i e (omega arith),
    )

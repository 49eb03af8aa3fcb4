-- ===== src/Shell/Navigate.antt =====
-- The commands "cd", "ls" and "find" of `parseCommand`, which only read directories.
use os_2024_operatingstress.Base.{
  ℕ, zero, suc, ◌+◌, ◌-◌, ◌%◌, ◌^◌, Bool, Option, none, some, List, [], ◌∷◌, ltb, ◌==◌,
  if◌then◌else◌, ◌>>=◌, length, get_elem?, set, take, drop,
}
use os_2024_operatingstress.Fat32.Types.{DriverRequest, attr_subdirectory, uattr_not_empty}
use os_2024_operatingstress.Fat32.Driver.{same_bytes, load_bytes, store_bytes}
use os_2024_operatingstress.Fat32.Read.{read_directory}
use os_2024_operatingstress.Strings.{strlen}
use os_2024_operatingstress.Shell.{
  Shell, Frame, codes, print_str, print_at, call, no_ext, zero_buffer, entry_at, entry_attribute,
  entry_user_attribute, entry_cluster, before_dot,
}

-- The request for a directory's table, into `table`.
abbrev pub directory_request : ℕ → List ℕ → ℕ → DriverRequest
directory_request table name parent = record {
  buf = table;
  name = name;
  ext = no_ext;
  parent_cluster_number = parent;
  buffer_size = 0;
}

-- The loop over `table.table[i].name`, `n` entries left: the first that begins with `arg`.
unfoldable pub find_entry : ℕ → ℕ → ℕ → List ℕ → Shell → Option ℕ
find_entry table zero i arg sh = none
find_entry table (suc n) i arg sh =
    let rest = find_entry table n (i + 1) arg sh in
    if same_bytes (load_bytes sh.fs.memory (entry_at table i) (length arg)) arg (length arg)
    then some i
    else rest

-- `xs[i] = x`, a fault outside the array.
unfoldable pub store_at : ℕ → ℕ → List ℕ → Option (List ℕ)
store_at i x xs = if ltb i (length xs) then some (set xs i x) else none

-- The directory at `e` becomes the current one; `list_dir` keeps the address of its name on the
-- stack.
unfoldable pub enter_directory : ℕ → Shell → Option Shell
enter_directory e sh =
    let depth : ℕ = (sh.depth + 1) % 2 ^ 32 in
    store_at depth (entry_cluster sh e) sh.list_cluster >>= λ clusters.
    store_at depth e sh.list_dir >>= λ dirs.
    some (record sh { depth = depth; list_cluster = clusters; list_dir = dirs })

-- `depth--` wraps around in `uint32_t`.
unfoldable pub cd_up : Shell → Option Shell
cd_up sh =
    if sh.depth == 0
    then some (print_str (codes "Udah paling ujung bos") 0b1101 sh)
    else (let depth : ℕ = (sh.depth + (2 ^ 32 - 1)) % 2 ^ 32 in
        get_elem? sh.list_dir depth >>= λ dir.
        print_at 256 dir 0xF
          (print_str (codes "Berhasil pindah ke ") 0b1001 (record sh { depth = depth })))

-- What is done with the entry that was found, if any.
unfoldable pub cd_found : ℕ → Option ℕ → Shell → Option Shell
cd_found table none sh = some (print_str (codes "Folder tidak ditemukan\n") 0b1100 sh)
cd_found table (some i) sh =
    if entry_attribute sh (entry_at table i) == attr_subdirectory
    then enter_directory (entry_at table i) sh
    else some (print_str (codes "Bukan sebuah folder\n") 0b1100 sh)

-- The name of the request is read before `table` is cleared.
unfoldable pub cd_down : Frame → List ℕ → Shell → Option Shell
cd_down frame command sh = get_elem? sh.list_cluster sh.depth >>= λ parent.
    get_elem? sh.list_dir sh.depth >>= λ dir.
    let name : List ℕ = load_bytes sh.fs.memory dir 8 in
    let cleared : Shell = zero_buffer frame.table sh in
    call (read_directory (directory_request frame.table name parent) cleared.fs) frame.retcode
      cleared
    >>= λ r. cd_found frame.table (find_entry frame.table 64 0 (take 8 (drop 3 command)) r.1) r.1

unfoldable pub cd : Frame → List ℕ → Shell → Option Shell
cd frame command sh =
    if same_bytes (46 ∷ 46 ∷ []) (drop 3 command) 2 then cd_up sh else cd_down frame command sh

-- "ls" and "find" read the table in the parent of the current directory.
abbrev pub listing_parent : Shell → Option ℕ
listing_parent sh =
    if sh.depth == 0 then get_elem? sh.list_cluster 0 else get_elem? sh.list_cluster (sh.depth - 1)

-- One entry of "ls": its name if it is used; an entry without a name writes the request's name back
-- to where `list_dir` points.
unfoldable pub ls_entry : ℕ → List ℕ → ℕ → Shell → Option Shell
ls_entry dir name e sh =
    (if entry_user_attribute sh e == uattr_not_empty
      then (print_at 256 e 0b1011 sh >>= λ sh'. some (print_str (codes " ") 0 sh'))
      else some sh)
    >>= λ sh'. some (
        if sh'.fs.memory e == 0
        then record sh' { fs = record (sh'.fs) { memory = store_bytes sh'.fs.memory dir name } }
        else sh')

unfoldable pub ls_loop : ℕ → List ℕ → ℕ → ℕ → ℕ → Shell → Option Shell
ls_loop dir name table zero i sh = some sh
ls_loop dir name table (suc n) i sh =
    ls_entry dir name (entry_at table i) sh >>= λ sh'. ls_loop dir name table n (i + 1) sh'

unfoldable pub ls : Frame → Shell → Option Shell
ls frame sh = listing_parent sh >>= λ parent. get_elem? sh.list_dir sh.depth >>= λ dir.
    let name : List ℕ = load_bytes sh.fs.memory dir 8 in
    let cleared : Shell = zero_buffer frame.table sh in
    call (read_directory (directory_request frame.table name parent) cleared.fs) frame.retcode
      cleared
    >>= λ r.
        if r.0 == 0
        then ls_loop dir name frame.table 64 0 r.1
        else if r.0 == 1
        then some (print_str (codes "Not a folder") 0b1100 r.1)
        else if r.0 == 2
        then some (print_str (codes "Not found") 0b1100 r.1)
        else some (print_str (codes "Error") 0b1100 r.1)

-- The loop asks for the end of the text before it looks for the dot.
unfoldable pub scan_end : List ℕ → Option (ℕ × Bool)
scan_end text = strlen text >>= λ n. before_dot text

-- Whether an entry was found.
unfoldable pub find_answer : List ℕ → Option ℕ → Shell → Option Shell
find_answer target none sh = some (print_str (codes "Tidak ditemukan") 0b1100 sh)
find_answer target (some i) sh =
    some (print_str target 6 (print_str (codes "Ditemukan ") 0b1001 sh))

-- The target ends at its dot.
unfoldable pub find : Frame → List ℕ → Shell → Option Shell
find frame command sh = scan_end (drop 5 command) >>= λ b.
    let target : List ℕ = take b.0 (drop 5 command) in
    listing_parent sh >>= λ parent. get_elem? sh.list_dir sh.depth >>= λ dir.
    let name : List ℕ = load_bytes sh.fs.memory dir 8 in
    let cleared : Shell = zero_buffer frame.table sh in
    call (read_directory (directory_request frame.table name parent) cleared.fs) frame.retcode
      cleared
    >>= λ r.
        if r.0 == 0
        then find_answer target (find_entry frame.table 64 0 target r.1) r.1
        else find_answer target none r.1

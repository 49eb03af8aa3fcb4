-- ===== src/Shell/Files.antt =====
-- The commands "mkdir", "cat", "cp", "mv" and "rm" of `parseCommand`.
use os_2024_operatingstress.Base.{
  ℕ, ◌+◌, ◌*◌, Option, none, some, List, [], ◌==◌, if◌then◌else◌, ◌>>=◌, get_elem?, take, drop,
}
use os_2024_operatingstress.Fat32.Types.{DriverRequest, cluster_size}
use os_2024_operatingstress.Fat32.Driver.{load_bytes}
use os_2024_operatingstress.Fat32.Read.{read, read_directory}
use os_2024_operatingstress.Fat32.Write.{write}
use os_2024_operatingstress.Fat32.Delete.{delete}
use os_2024_operatingstress.Strings.{strlen, string_len}
use os_2024_operatingstress.Shell.{
  Shell, Frame, codes, print_str, print_at, call, no_ext, copy_name, zero_buffer, entry_at,
  entry_cluster, get_ext, scan_ext,
}
use os_2024_operatingstress.Shell.Navigate.{directory_request, find_entry}

unfoldable pub mkdir : Frame → List ℕ → Shell → Option Shell
mkdir frame command sh = get_elem? sh.list_cluster sh.depth >>= λ parent.
    let request : DriverRequest = record {
      buf = frame.cbuf;
      name = take 8 (drop 6 command);
      ext = no_ext;
      parent_cluster_number = parent;
      buffer_size = 0;
    } in
    call (write request sh.fs) frame.retcode sh >>= λ r. some (
      if r.0 == 0
      then print_str (codes "Berhasil membuat folder") 0b1001 r.1
      else if r.0 == 1
      then print_str (codes "File/Folder sudah ada") 0b1100 r.1
      else if r.0 == 2
      then print_str (codes "Parent tidak valid") 0b1100 r.1
      else print_str (codes "idk") 0b1100 r.1)

-- The request for five clusters in `cl`.
abbrev pub file_request : Frame → ℕ → List ℕ → List ℕ → DriverRequest
file_request frame parent name ext = record {
  buf = frame.cl;
  name = name;
  ext = ext;
  parent_cluster_number = parent;
  buffer_size = 5 * cluster_size;
}

unfoldable pub cat : Frame → List ℕ → Shell → Option Shell
cat frame command sh = get_elem? sh.list_cluster sh.depth >>= λ parent.
    scan_ext (drop 4 command) >>= λ e. copy_name (drop 4 command) e.0 >>= λ name.
    call (read (file_request frame parent name e.1) sh.fs) frame.retcode sh >>= λ r.
    if r.0 == 0
    then (print_at (5 * cluster_size) frame.cl 0b1111 r.1 >>= λ sh'. some (print_str [] 0b1111 sh'))
    else if r.0 == 1
    then some (print_str (codes "Bukan File ey") 0b1100 r.1)
    else if r.0 == 2
    then some (print_str (codes "Gaada filenya") 0b1100 r.1)
    else some (print_str (codes "Teuing error naon") 0b1100 r.1)

-- The message for `readCode`, and the one for `codeWrite`; -1 is all ones.
unfoldable pub read_message : ℕ → List ℕ
read_message word =
    if word == 0
    then codes "Berhasil membaca"
    else if word == 0xFFFFFFFF
    then codes "Buffer ga cukup bos"
    else if word == 1
    then codes "Ini bukan file"
    else if word == 2
    then codes "Tidak ditemukan"
    else codes "Error"

unfoldable pub write_message : ℕ → List ℕ
write_message word =
    if word == 0
    then codes "Sukses Menulis"
    else if word == 0xFFFFFFFF
    then codes "Penyimpanan tidak cukup"
    else if word == 1
    then codes "File/folder sudah ada"
    else if word == 2
    then codes "Invalid parent cluster"
    else codes "Error"

-- The file is written to the directory at the entry that was found; without one `codeWrite` keeps
-- what the stack held.
unfoldable pub copy_write : Frame → DriverRequest → Option ℕ → Shell → Option (ℕ × Shell)
copy_write frame request none sh = some (frame.code_write, sh)
copy_write frame request (some i) sh =
    let cluster : ℕ = entry_cluster sh (entry_at frame.table i) in
    call (write (record request { parent_cluster_number = cluster }) sh.fs) frame.code_write sh

-- From `table` on: the current directory's table is searched for the name behind the extension.
unfoldable pub copy_to : Frame → DriverRequest → DriverRequest → List ℕ → Shell → Option Shell
copy_to frame request destination target sh =
    let cleared : Shell = zero_buffer frame.table sh in
    call (read_directory destination cleared.fs) frame.retcode cleared >>= λ r.
    string_len target >>= λ n.
    copy_write frame request (find_entry frame.table 64 0 (take n target) r.1) r.1 >>= λ w.
    some (print_str (write_message w.0) 0b1111 w.1)

-- What "cp" and "mv" share: the file is read into `cl`, and five clusters are written whatever its
-- size. The length before the dot is answered.
unfoldable pub copy : Frame → List ℕ → Shell → Option (ℕ × Shell)
copy frame command sh = get_elem? sh.list_cluster sh.depth >>= λ parent.
    get_ext (drop 3 command) >>= λ e. copy_name (drop 3 command) e.0 >>= λ name.
    get_elem? sh.list_dir sh.depth >>= λ dir. strlen (load_bytes sh.fs.memory dir 256) >>= λ n.
    copy_name (load_bytes sh.fs.memory dir n) n >>= λ dir_name.
    let request : DriverRequest = file_request frame parent name e.1 in
    call (read request sh.fs) frame.retcode sh >>= λ r.
    copy_to frame request (directory_request frame.table dir_name parent) (drop (e.0 + 8) command)
      (print_str (read_message r.0) 0b1001 r.1)
    >>= λ sh'. some (e.0, sh')

unfoldable pub cp : Frame → List ℕ → Shell → Option Shell
cp frame command sh = copy frame command sh >>= λ r. some r.1

unfoldable pub delete_message : ℕ → Shell → Shell
delete_message word sh =
    if word == 0
    then print_str (codes "Sukses menghapus") 0b0110 sh
    else if word == 1
    then print_str (codes "File/Folder tidak ditemukan") 0b0110 sh
    else if word == 2
    then print_str (codes "Sukses menghapus") 0b0110 sh
    else sh

-- `length` is not reset before `getExt` counts on it again, so twice as many bytes are copied to
-- the name.
unfoldable pub mv : Frame → List ℕ → Shell → Option Shell
mv frame command sh = copy frame command sh >>= λ c.
    get_elem? sh.list_cluster sh.depth >>= λ parent. get_ext (drop 3 command) >>= λ e.
    copy_name (drop 3 command) (c.0 + e.0) >>= λ name.
    let asked : Shell = print_str [] 0b0110 c.1 in
    call (delete (file_request frame parent name e.1) asked.fs) frame.del_code asked >>= λ r.
    some (delete_message r.0 r.1)

-- The name is eight bytes of the command, its dot and extension included.
unfoldable pub rm : Frame → List ℕ → Shell → Option Shell
rm frame command sh = get_elem? sh.list_cluster sh.depth >>= λ parent.
    scan_ext (drop 3 command) >>= λ e.
    call (delete (file_request frame parent (take 8 (drop 3 command)) e.1) sh.fs) frame.retcode sh
    >>= λ r. some (
        if r.0 == 0
        then print_str (codes "Delete Berhasil") 0b1001 r.1
        else if r.0 == 1
        then print_str (codes "File/Folder Tidak ada") 0b1100 r.1
        else if r.0 == 2
        then print_str (codes "Tidak Kosong") 0b1100 r.1
        else print_str (codes "Unknown Error") 0b1100 r.1)

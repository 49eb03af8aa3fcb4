-- ===== src/Shell.antt =====
-- src/user-shell.c: the shell's globals and what its commands share. A system call of the file
-- system is the operation it reaches; `printStr` is a line of output. `command` is the list of the
-- 256 bytes of `buf`. A write past a field, a read past an array and a text without an end are
-- faults, `none`.
pub mod Navigate
pub mod Files
pub mod Parse
pub mod Main
pub mod Valid
use Prim.Native.Char.{code}
use Prim.Native.String.{String}
use os_2024_operatingstress.Base.{
  ℕ, zero, suc, ◌+◌, ◌-◌, ◌*◌, ◌/◌, ◌%◌, ◌^◌, ◌≤◌, ◌<◌, bit_and, bit_or, ◌≡◌, refl, sym, ap, ap₂,
  ◌∙◌, fun_ext, subst, ◌≢◌, ◌↔◌, ◌⊎◌, inl, inr, Bool, true, false, not, ◌&&◌, ◌||◌, Option, none,
  some, List, [], ◌∷◌, ◌++◌, map, arith, ℤ, pos, negsuc, ltb, leb, ◌==◌, if◌then◌else◌, ltb→lt,
  lt→ltb, ==_iff, Bool-cases, Option-cases, ◌>>=◌, length, get_elem?, get_or, set, take, drop,
  replicate, length-append, length-set, length-drop, length-take, length-replicate,
  take-append-drop, take-append, drop-append, take_all, eq-nil, get_elem?-set_self,
  get_elem?-set_ne, get_elem?-some, lt-length_of_some, All, All-set, All-get, All-append,
  All-get_or, All-front, All-back, All-take, All-drop, All-replicate, take-set_self, take-set_ge,
  take-append_le, All-map, set-set, split-set,
}
use os_2024_operatingstress.Strings.{strlen}
use os_2024_operatingstress.Fat32.Driver.{DriverState, Reply, same_bytes, load_bytes, store_bytes}
use os_2024_operatingstress.Interrupt.{int8}

-- What the shell has sent to the screen: a text in a colour, a clear, or the cursor to its start
-- (call 5).
pub data Output : Type 0 where
  text : List ℕ → ℕ → Output
  clear : Output
  home : Output

-- The globals, with the file system behind the system calls. `list_dir` holds addresses.
pub record Shell : Type 0 where
  pub fs : DriverState
  pub depth : ℕ
  pub list_cluster : List ℕ
  pub list_dir : List ℕ
  pub shown : List Output

-- The stack of a call of `parseCommand`: where `table` stands, and what the words that are not
-- initialised hold; and the addresses of the global `cl` and of `cbuf`.
pub record Frame : Type 0 where
  pub cl : ℕ
  pub cbuf : ℕ
  pub table : ℕ
  pub retcode : ℕ
  pub code_write : ℕ
  pub del_code : ℕ

abbrev pub codes : String → List ℕ
codes String.[] = []
codes (String.◌∷◌ c s) = code c ∷ codes s

-- `printStr` of a text in the program.
abbrev pub print_str : List ℕ → ℕ → Shell → Shell
print_str buf color sh = record sh { shown = sh.shown ++ text buf color ∷ [] }

-- `printStr` of what memory holds at an address. A text without an end in `limit` bytes is a fault.
unfoldable pub print_at : ℕ → ℕ → ℕ → Shell → Option Shell
print_at limit p color sh = strlen (load_bytes sh.fs.memory p limit) >>= λ n.
    some (print_str (load_bytes sh.fs.memory p n) color sh)

-- The low byte of a word that the kernel overwrites with its `int8_t` answer.
abbrev pub set_code : ℕ → ℤ → ℕ
set_code word c = word / 256 * 256 + int8 c

-- A system call of the file system: the state after it and the answer in `word`.
unfoldable pub call : Reply → ℕ → Shell → Option (ℕ × Shell)
call reply word sh = reply >>= λ r. some (set_code word r.0, record sh { fs = r.1 })

-- `command` begins with a word.
abbrev pub starts : List ℕ → List ℕ → Bool
starts command word = same_bytes command word (length word)

abbrev pub no_ext : List ℕ
no_ext = 0 ∷ 0 ∷ 0 ∷ []

-- `memcpy(request.name, src, n)` into eight zero bytes.
unfoldable pub copy_name : List ℕ → ℕ → Option (List ℕ)
copy_name src n = if leb n 8 then some (take n src ++ replicate (8 - n) 0) else none

-- `struct FAT32DirectoryTable table = {};`
abbrev pub zero_buffer : ℕ → Shell → Shell
zero_buffer p sh = record sh {
  fs = record (sh.fs) { memory = store_bytes sh.fs.memory p (replicate 2048 0) };
}

-- `table.table[i].name`, and the fields of the entry that the shell looks at.
abbrev pub entry_at : ℕ → ℕ → ℕ
entry_at table i = table + 32 * i

abbrev pub entry_attribute : Shell → ℕ → ℕ
entry_attribute sh e = sh.fs.memory (e + 11)

abbrev pub entry_user_attribute : Shell → ℕ → ℕ
entry_user_attribute sh e = sh.fs.memory (e + 12)

-- `cluster_low | (cluster_high << 16)`
abbrev pub entry_cluster : Shell → ℕ → ℕ
entry_cluster sh e =
    sh.fs.memory (e + 26)
    + 256 * sh.fs.memory (e + 27)
    + 65536 * (sh.fs.memory (e + 20) + 256 * sh.fs.memory (e + 21))

-- The loop of `getExt`, "cat" and "rm": the characters before the first '.', and whether there is
-- one.
unfoldable pub before_dot : List ℕ → Option (ℕ × Bool)
before_dot [] = none
before_dot (c ∷ cs) =
    let rest = before_dot cs in
    if c == 0
    then some (0, false)
    else if c == 46
    then some (0, true)
    else (rest >>= λ r. some (r.0 + 1, r.1))

-- The three characters behind a dot.
unfoldable pub ext_at : List ℕ → Option (List ℕ)
ext_at (a ∷ b ∷ c ∷ cs) = some (a ∷ b ∷ c ∷ [])
ext_at cs = none

-- `getExt`: the length before the dot, and the three characters behind it.
unfoldable pub get_ext : List ℕ → Option (ℕ × List ℕ)
get_ext param = before_dot param >>= λ r.
    (if r.1 then ext_at (drop (r.0 + 1) param) else some no_ext) >>= λ ext. some (r.0, ext)

-- The loops of "cat" and "rm" ask for the end of the text first.
unfoldable pub scan_ext : List ℕ → Option (ℕ × List ℕ)
scan_ext itr = strlen itr >>= λ n. get_ext itr

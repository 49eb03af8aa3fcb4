-- ===== src/Inserter.antt =====
-- `main` of src/external/external-inserter.c, a program of the host that puts one file into a
-- storage image: it reads the image into memory, runs the file system of src/fat32.c on it, and
-- writes it back. The C library is a parameter, and so is the heap; `malloc` succeeds.
pub mod Laws
pub mod Insert
pub mod Start
mod Tests
use os_2024_operatingstress.Base.{
  ℕ, zero, suc, ◌+◌, ◌-◌, ◌*◌, ◌/◌, ◌%◌, ◌^◌, ◌≤◌, ◌<◌, bit_and, bit_or, ◌≡◌, refl, sym, ap, ap₂,
  ◌∙◌, fun_ext, subst, ◌≢◌, ◌↔◌, ◌⊎◌, inl, inr, Bool, true, false, not, ◌&&◌, ◌||◌, Option, none,
  some, List, [], ◌∷◌, ◌++◌, map, arith, ℤ, pos, negsuc, ltb, leb, ◌==◌, if◌then◌else◌, ltb→lt,
  lt→ltb, ==_iff, Bool-cases, Option-cases, Ends, Ends-some, Ends-bind, Ends-if, ◌>>=◌, length,
  get_elem?, get_or, set, take, drop, replicate, length-append, length-set, length-drop,
  length-take, length-replicate, take-append-drop, take-append, drop-append, take_all, eq-nil,
  get_elem?-set_self, get_elem?-set_ne, get_elem?-some, lt-length_of_some, All, All-set, All-get,
  All-append, All-get_or, All-front, All-back, All-take, All-drop, All-replicate, take-set_self,
  take-set_ge, take-append_le, All-map, set-set, split-set, split-get_elem?, All-below,
  get_elem?-ext, get_elem?-set,
}
use os_2024_operatingstress.Strings.{Memory}
use os_2024_operatingstress.Disk.{Storage, block_size, read_blocks}
use os_2024_operatingstress.Fat32.Types.{DriverRequest}
use os_2024_operatingstress.Fat32.Driver.{DriverState, load_bytes}
use os_2024_operatingstress.Fat32.Init.{zero_table, initialize_filesystem_fat32}
use os_2024_operatingstress.Fat32.Write.{write}

-- What the program uses of the C library. A path is the list of its characters.
pub record Host : Type 0 where
  -- the bytes of the file that `fopen(path, "r")` opens
  pub open_read : List ℕ → Option (List ℕ)
  -- whether `fopen(path, "w")` opens a file
  pub open_write : List ℕ → Bool
  -- `fread(ptr, size, 1, file)`: the memory after it, for the bytes of the file
  pub fread : Memory → ℕ → ℕ → List ℕ → Memory
  -- what `sscanf` finds for "%u", and the characters it finds for "%8s"
  pub scan_number : List ℕ → Option ℕ
  pub scan_word : List ℕ → Option (List ℕ)
  -- the memory after both calls of `malloc`, and what they return
  pub heap : Memory
  pub image_storage : ℕ
  pub file_buffer : ℕ

-- The lines that are printed.
pub data Line : Type 0 where
  usage : Line
  filename : List ℕ → Line
  filesize : ℕ → Line
  write_success : Line
  already_exists : Line
  invalid_parent : Line
  unknown_error : Line

-- How the program ends: its exit status, what it printed, and the bytes written back to the image,
-- where it is written.
pub record Outcome : Type 0 where
  pub status : ℕ
  pub printed : List Line
  pub image : Option (List ℕ)

-- 4 MB
abbrev pub storage_size : ℕ
storage_size = 4 * 1024 * 1024

-- The blocks of `image_storage`.
unfoldable pub image_blocks : Host → Memory → Storage
image_blocks h m b = load_bytes m (h.image_storage + block_size * b) block_size

-- The target file in `file_buffer`, and its size; a file that does not open has size 0.
unfoldable pub read_target : Host → List ℕ → Memory → Memory × ℕ
read_target h path m = elim (h.open_read path) [
  | none ↦ (m, 0)
  | some bs ↦ (h.fread m h.file_buffer storage_size bs, length bs)
]

-- `sscanf(…, "%8s", request.name)`: the characters and a zero byte, which after eight of them is
-- the first byte of `ext`. Before it all eleven bytes are zero.
unfoldable pub scan_name : Option (List ℕ) → List ℕ
scan_name none = replicate 11 0
scan_name (some w) = take 11 (w ++ 0 ∷ replicate 11 0)

-- `sscanf(…, "%u", &request.parent_cluster_number)`
unfoldable pub scan_parent : Option ℕ → ℕ
scan_parent none = 0
scan_parent (some n) = n

unfoldable pub insert_request : Host → List ℕ → List ℕ → ℕ → DriverRequest
insert_request h target parent size = record {
  buf = h.file_buffer;
  name = take 8 (scan_name (h.scan_word target));
  ext = drop 8 (scan_name (h.scan_word target));
  parent_cluster_number = scan_parent (h.scan_number parent);
  buffer_size = size % 2 ^ 32;
}

unfoldable pub start_driver : Host → Memory → DriverState
start_driver h m = initialize_filesystem_fat32 (record {
  memory = m;
  disk = image_blocks h m;
  fat_table = replicate 512 0;
  dir_table_buf = zero_table;
})

unfoldable pub retcode_line : ℤ → Line
retcode_line (pos zero) = write_success
retcode_line (pos (suc zero)) = already_exists
retcode_line (pos (suc (suc zero))) = invalid_parent
retcode_line _ = unknown_error

-- After the arguments are checked. A file that does not open is used as a null pointer, a fault.
unfoldable pub insert : Host → List ℕ → List ℕ → List ℕ → Option Outcome
insert h target parent storage = h.open_read storage >>= λ bs.
    let read : Memory × ℕ = read_target h target (h.fread h.heap h.image_storage storage_size bs) in
    write (insert_request h target parent read.1) (start_driver h read.0) >>= λ written.
    if h.open_write storage
    then some (record {
      status = 0;
      printed = filename target ∷ filesize read.1 ∷ retcode_line written.0 ∷ [];
      image = some (read_blocks written.1.disk 0 8192);
    })
    else none

unfoldable pub main : Host → List (List ℕ) → Option Outcome
main h (program ∷ target ∷ parent ∷ storage ∷ more) = insert h target parent storage
main h _ = some (record { status = 1; printed = usage ∷ []; image = none })

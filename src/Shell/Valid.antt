-- ===== src/Shell/Valid.antt =====
-- Well-formed states of the shell, and what its commands share keeps them so.
use os_2024_operatingstress.Base.{
  ℕ, ◌+◌, ◌^◌, ◌<◌, ◌≡◌, ◌∙◌, List, arith, ℤ, Ends, Ends-some, Ends-bind, length, replicate, All,
  All-replicate,
}
use os_2024_operatingstress.Disk.{Storage}
use os_2024_operatingstress.Strings.{strlen}
use os_2024_operatingstress.Fat32.Types.{DriverRequest}
use os_2024_operatingstress.Fat32.Codec.Bounds.{Bytes}
use os_2024_operatingstress.Fat32.Driver.{DriverState, Reply, reply, load_bytes, store_bytes}
use os_2024_operatingstress.Fat32.Driver.Invariant.{IsState, store_bytes-byte}
use os_2024_operatingstress.Fat32.Read.{read, read_directory}
use os_2024_operatingstress.Fat32.Read.Laws.{read_disk}
use os_2024_operatingstress.Fat32.Read.Keeps.{read_directory_disk}
use os_2024_operatingstress.Fat32.Read.Valid.{read-IsState, read_directory-IsState}
use os_2024_operatingstress.Shell.{Shell, call, print_str, print_at, zero_buffer, entry_cluster}

-- The file system's state is well formed, and the arrays of 100 places are in reach of the depth.
pub record IsShell (sh : Shell) : Type 0 where
  pub fs : IsState sh.fs
  pub depth : sh.depth < 100
  pub list_cluster : length sh.list_cluster ≡ 100
  pub list_dir : length sh.list_dir ≡ 100
  pub clusters : All (λ c. c < 2 ^ 32) sh.list_cluster

-- A well-formed state with a given disk.
pub record Looks (d : Storage) (sh : Shell) : Type 0 where
  pub valid : IsShell sh
  pub disk : sh.fs.disk ≡ d

-- The file system's state is replaced by a well-formed one.
pub with_fs-IsShell :
    (sh : Shell) (s : DriverState) → IsShell sh → IsState s → IsShell (record sh { fs = s })
with_fs-IsShell sh s v w = record {
  fs = w;
  depth = v.depth;
  list_cluster = v.list_cluster;
  list_dir = v.list_dir;
  clusters = v.clusters;
}

pub print_str-IsShell :
    (buf : List ℕ) (color : ℕ) (sh : Shell) → IsShell sh → IsShell (print_str buf color sh)
print_str-IsShell buf color sh v = record {
  fs = v.fs;
  depth = v.depth;
  list_cluster = v.list_cluster;
  list_dir = v.list_dir;
  clusters = v.clusters;
}

pub print_str-Looks :
    (d : Storage) (buf : List ℕ) (color : ℕ) (sh : Shell)
    → Looks d sh
    → Looks d (print_str buf color sh)
print_str-Looks d buf color sh v = record {
  valid = print_str-IsShell buf color sh v.valid;
  disk = v.disk;
}

pub print_at-Looks :
    (d : Storage) (limit p color : ℕ) (sh : Shell)
    → Looks d sh
    → Ends (Looks d) (print_at limit p color sh)
unfolding print_at
print_at-Looks d limit p color sh v =
    Ends-bind (Looks d) (strlen (load_bytes sh.fs.memory p limit)) _
      λ n e. Ends-some (Looks d) _ (print_str-Looks d (load_bytes sh.fs.memory p n) color sh v)

-- Bytes that are stored in the shell's memory.
pub store_bytes-Looks :
    (d : Storage) (p : ℕ) (bs : List ℕ) (sh : Shell)
    → Bytes bs
    → Looks d sh
    → Looks d (record sh { fs = record (sh.fs) { memory = store_bytes sh.fs.memory p bs } })
store_bytes-Looks d p bs sh h v = record {
  valid = with_fs-IsShell sh _ v.valid (record {
    memory = store_bytes-byte sh.fs.memory p bs h v.valid.fs.memory;
    disk = v.valid.fs.disk;
    fat = v.valid.fs.fat;
    table = v.valid.fs.table;
  });
  disk = v.disk;
}

pub zero_buffer-Looks : (d : Storage) (p : ℕ) (sh : Shell) → Looks d sh → Looks d (zero_buffer p sh)
zero_buffer-Looks d p sh v =
    store_bytes-Looks d p (replicate 2048 0) sh (All-replicate (λ b. b < 256) 2048 (omega arith)) v

-- A call ends well formed if every state it answers with is.
pub call-IsShell :
    (rep : Reply) (word : ℕ) (sh : Shell)
    → IsShell sh
    → ((code : ℤ) (s : DriverState) → rep ≡ reply code s → IsState s)
    → Ends (λ (r : ℕ × Shell). IsShell r.1) (call rep word sh)
unfolding call
call-IsShell rep word sh v h =
    Ends-bind (λ (r : ℕ × Shell). IsShell r.1) rep _
      λ r e. Ends-some (λ (r : ℕ × Shell). IsShell r.1) _ (with_fs-IsShell sh r.1 v (h r.0 r.1 e))

call-Looks :
    (d : Storage) (rep : Reply) (word : ℕ) (sh : Shell)
    → Looks d sh
    → ((code : ℤ) (s : DriverState) → rep ≡ reply code s → IsState s × (s.disk ≡ d))
    → Ends (λ (r : ℕ × Shell). Looks d r.1) (call rep word sh)
unfolding call
call-Looks d rep word sh v h =
    Ends-bind (λ (r : ℕ × Shell). Looks d r.1) rep _
      λ r e.
        Ends-some (λ (r : ℕ × Shell). Looks d r.1) _
          (record {
            valid = with_fs-IsShell sh r.1 v.valid ((h r.0 r.1 e).0);
            disk = (h r.0 r.1 e).1;
          })

pub call-read-Looks :
    (d : Storage) (q : DriverRequest) (word : ℕ) (sh : Shell)
    → Looks d sh
    → Ends (λ (r : ℕ × Shell). Looks d r.1) (call (read q sh.fs) word sh)
call-read-Looks d q word sh v =
    call-Looks d (read q sh.fs) word sh v λ code s e.
      (read-IsState q sh.fs s code v.valid.fs e, (read_disk q sh.fs s code e).0 ∙ v.disk)

pub call-read_directory-Looks :
    (d : Storage) (q : DriverRequest) (word : ℕ) (sh : Shell)
    → Looks d sh
    → Ends (λ (r : ℕ × Shell). Looks d r.1) (call (read_directory q sh.fs) word sh)
call-read_directory-Looks d q word sh v =
    call-Looks d (read_directory q sh.fs) word sh v λ code s e. (
      read_directory-IsState q sh.fs s code v.valid.fs e,
      (read_directory_disk q sh.fs s code e).0 ∙ v.disk,
    )

pub entry_cluster-lt : (sh : Shell) (e : ℕ) → IsShell sh → entry_cluster sh e < 2 ^ 32
entry_cluster-lt sh e v =
    let byte = v.fs.memory in
    omega (arith, byte (e + 26), byte (e + 27), byte (e + 20), byte (e + 21))

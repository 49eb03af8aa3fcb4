-- ===== src/Fat32/Driver/Invariant.antt =====
-- The representation invariant of the driver and its disk: blocks of 512 bytes, an allocation table
-- of 512 words, a cached directory of 64 entries with fields in range, memory of bytes.
use os_2024_operatingstress.Base.{
  All-get_or, ℕ, zero, suc, ◌+◌, ◌-◌, ◌^◌, ◌<◌, ◌≡◌, refl, List, arith, set, length, ap, subst, ℤ,
  ◌∙◌, All-set, length-set,
}
use os_2024_operatingstress.Strings.{Memory}
use os_2024_operatingstress.Disk.{Storage}
use os_2024_operatingstress.Disk.Invariant.{IsStorage, read_blocks-bytes, write_blocks-IsStorage}
use os_2024_operatingstress.Fat32.Types.{DirectoryEntry, DirectoryTable, IsEntry, IsTable, IsFat}
use os_2024_operatingstress.Fat32.Codec.{encode_table, encode_fat}
use os_2024_operatingstress.Fat32.Codec.Laws.{length-encode_table, length-encode_fat}
use os_2024_operatingstress.Fat32.Codec.Bounds.{
  Bytes, decode_table-IsTable, decode_fat-IsFat, encode_table-Bytes, encode_fat-Bytes,
}
use os_2024_operatingstress.Fat32.Driver.{
  DriverState, reply, read_clusters, write_clusters, read_table, write_table, read_fat, write_fat,
  store_bytes, load_bytes, cluster_lba,
}

pub record IsState (s : DriverState) : Type 0 where
  pub memory : (a : ℕ) → s.memory a < 256
  pub disk : IsStorage s.disk
  pub fat : IsFat s.fat_table
  pub table : IsTable s.dir_table_buf

pub read_clusters-Bytes :
    (d : Storage) (c : ℕ)
    → IsStorage d
    → (length (read_clusters d c) ≡ 2048) × Bytes (read_clusters d c)
unfolding read_clusters
read_clusters-Bytes d c v = read_blocks-bytes 4 (cluster_lba c) d v

pub read_table-IsTable : (d : Storage) (c : ℕ) → IsStorage d → IsTable (read_table d c)
unfolding read_table
read_table-IsTable d c v =
    let lem = read_clusters-Bytes d c v in decode_table-IsTable (read_clusters d c) lem.0 lem.1

pub read_fat-IsFat : (d : Storage) → IsStorage d → IsFat (read_fat d)
unfolding read_fat
read_fat-IsFat d v = decode_fat-IsFat (read_clusters d 1) (read_clusters-Bytes d 1 v).1

pub write_clusters-IsStorage :
    (bs : List ℕ) (c : ℕ) (d : Storage)
    → length bs ≡ 2048
    → Bytes bs
    → IsStorage d
    → IsStorage (write_clusters bs c d)
unfolding write_clusters
write_clusters-IsStorage bs c d n b v = write_blocks-IsStorage 4 (cluster_lba c) d bs n b v

pub write_table-IsStorage :
    (t : DirectoryTable) (c : ℕ) (d : Storage)
    → IsTable t
    → IsStorage d
    → IsStorage (write_table t c d)
unfolding write_table
write_table-IsStorage t c d v w =
    write_clusters-IsStorage (encode_table t) c d
      (omega (arith, length-encode_table t v.entries, v.size)) (encode_table-Bytes t v.entries) w

pub write_fat-IsStorage :
    (fat : List ℕ) (d : Storage) → IsFat fat → IsStorage d → IsStorage (write_fat fat d)
unfolding write_fat
write_fat-IsStorage fat d v w =
    write_clusters-IsStorage (encode_fat fat) 1 d (omega (arith, length-encode_fat fat, v.size))
      (encode_fat-Bytes fat) w

pub set-IsFat : (fat : List ℕ) (i v : ℕ) → IsFat fat → v < 2 ^ 32 → IsFat (set fat i v)
set-IsFat fat i v w h = record {
  size = length-set fat i v ∙ w.size;
  entries = All-set (λ x. x < 2 ^ 32) fat i w.entries h;
}

pub set-IsTable :
    (t : DirectoryTable) (i : ℕ) (e : DirectoryEntry) → IsTable t → IsEntry e → IsTable (set t i e)
set-IsTable t i e w h = record {
  size = length-set t i e ∙ w.size;
  entries = All-set IsEntry t i w.entries h;
}

pub store_bytes-byte :
    (m : Memory) (p : ℕ) (bs : List ℕ)
    → Bytes bs
    → ((a : ℕ) → m a < 256)
    → (a : ℕ) → store_bytes m p bs a < 256
unfolding store_bytes
store_bytes-byte m p bs h v a =
    ground (arith, v a, All-get_or (λ b. b < 256) bs (a - p) 0 (omega arith) h)

pub load_bytes-Bytes :
    (n : ℕ) (m : Memory) (p : ℕ)
    → ((a : ℕ) → m a < 256)
    → (length (load_bytes m p n) ≡ n) × Bytes (load_bytes m p n)
unfolding load_bytes
load_bytes-Bytes zero m p h = (refl, tt)
load_bytes-Bytes (suc n) m p h =
    let ih = load_bytes-Bytes n m (p + 1) h in (ap suc ih.0, (h p, ih.1))

-- An answer with a well-formed state.
pub reply-IsState :
    (c code : ℤ) (s s' : DriverState) → IsState s → reply c s ≡ reply code s' → IsState s'
reply-IsState c code s s' v h = let same : s ≡ s' = cc in subst IsState same v

pub cached_table-IsState :
    (c : ℕ) (s : DriverState)
    → IsState s
    → IsState (record s { dir_table_buf = read_table s.disk c })
cached_table-IsState c s v = record {
  memory = v.memory;
  disk = v.disk;
  fat = v.fat;
  table = read_table-IsTable s.disk c v.disk;
}

-- ===== src/Fat32/Driver/Laws.antt =====
-- Clusters and structures on the disk: what is read back after a write, and what stays.
use os_2024_operatingstress.Base.{
  ℕ, ◌+◌, ◌*◌, ◌≤◌, ◌<◌, ◌^◌, ◌≡◌, ◌≢◌, ◌↔◌, true, List, arith, length, take, take_all, ap, ◌∙◌,
  sym,
}
use os_2024_operatingstress.Strings.Compare.{memcmp-zero_iff}
use os_2024_operatingstress.Disk.{Storage}
use os_2024_operatingstress.Disk.Laws.{read_blocks-write_blocks, read_blocks_apart}
use os_2024_operatingstress.Fat32.Types.{DirectoryTable, IsTable, IsFat}
use os_2024_operatingstress.Fat32.Codec.{encode_table, encode_fat, decode_table, decode_fat}
use os_2024_operatingstress.Fat32.Codec.Laws.{
  length-encode_table, length-encode_fat, decode_table-encode_table, decode_fat-encode_fat,
}
use os_2024_operatingstress.Fat32.Driver.{
  cluster_lba, read_clusters, write_clusters, read_table, write_table, read_fat, write_fat,
  same_bytes, divceil,
}

-- `!memcmp(a, b, n)` on arrays of `n` bytes is equality.
pub same_bytes_iff :
    (n : ℕ) (xs ys : List ℕ)
    → length xs ≡ n
    → length ys ≡ n
    → (same_bytes xs ys n ≡ true) ↔ (xs ≡ ys)
unfolding same_bytes
same_bytes_iff n xs ys p q =
    let lem = memcmp-zero_iff n xs ys (omega arith) (omega arith) in
    (
      λ h. sym (take_all xs n p) ∙ (lem.0 (ground arith) ∙ take_all ys n q),
      λ h. ground (arith, lem.1 (ap (take n) h)),
    )

pub read_clusters-write_clusters :
    (bs : List ℕ) (c : ℕ) (d : Storage)
    → length bs ≡ 2048
    → read_clusters (write_clusters bs c d) c ≡ bs
unfolding read_clusters write_clusters
read_clusters-write_clusters bs c d h = read_blocks-write_blocks 4 (cluster_lba c) d bs h

-- Below 2 ^ 30 no two clusters share a block.
pub read_clusters_apart :
    (bs : List ℕ) (c k : ℕ) (d : Storage)
    → c < 2 ^ 30
    → k < 2 ^ 30
    → c ≢ k
    → read_clusters (write_clusters bs c d) k ≡ read_clusters d k
unfolding read_clusters write_clusters
read_clusters_apart bs c k d hc hk h =
    read_blocks_apart 4 (cluster_lba c) 4 (cluster_lba k) d bs (omega arith)

-- A directory table in its declared sizes that is written to a cluster is read back from it.
pub read_table-write_table :
    (t : DirectoryTable) (c : ℕ) (d : Storage) → IsTable t → read_table (write_table t c d) c ≡ t
unfolding read_table write_table
read_table-write_table t c d v =
    ap (decode_table 64) (
      read_clusters-write_clusters (encode_table t) c d
        (omega (arith, length-encode_table t v.entries, v.size)))
    ∙ decode_table-encode_table t v

-- The allocation table written to its cluster is read back from it.
pub read_fat-write_fat : (fat : List ℕ) (d : Storage) → IsFat fat → read_fat (write_fat fat d) ≡ fat
unfolding read_fat write_fat
read_fat-write_fat fat d v =
    ap (decode_fat 512) (
      read_clusters-write_clusters (encode_fat fat) 1 d
        (omega (arith, length-encode_fat fat, v.size)))
    ∙ decode_fat-encode_fat fat v

pub read_clusters-write_table :
    (t : DirectoryTable) (c k : ℕ) (d : Storage)
    → c < 2 ^ 30
    → k < 2 ^ 30
    → c ≢ k
    → read_clusters (write_table t c d) k ≡ read_clusters d k
unfolding write_table
read_clusters-write_table t = read_clusters_apart (encode_table t)

pub read_clusters-write_fat :
    (fat : List ℕ) (k : ℕ) (d : Storage)
    → k < 2 ^ 30
    → k ≢ 1
    → read_clusters (write_fat fat d) k ≡ read_clusters d k
unfolding write_fat
read_clusters-write_fat fat k d h p =
    read_clusters_apart (encode_fat fat) 1 k d (omega arith) h (λ e. p (sym e))

pub read_table_cong :
    (d e : Storage) (k : ℕ)
    → read_clusters d k ≡ read_clusters e k
    → read_table d k ≡ read_table e k
unfolding read_table
read_table_cong d e k h = ap (decode_table 64) h

pub read_fat_cong :
    (d e : Storage) → read_clusters d 1 ≡ read_clusters e 1 → read_fat d ≡ read_fat e
unfolding read_fat
read_fat_cong d e h = ap (decode_fat 512) h

-- For a 32-bit size the number of clusters that `divceil` gives is the least that holds the bytes.
pub divceil_lem :
    (a : ℕ) → a < 2 ^ 32 → (a ≤ divceil a 2048 * 2048) × (divceil a 2048 * 2048 < a + 2048)
unfolding divceil
divceil_lem a h = ground arith

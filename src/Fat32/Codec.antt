-- ===== src/Fat32/Codec.antt =====
-- The packed, little-endian layout of the structures in a cluster: what `read_blocks` into a
-- structure and `write_blocks` from one mean.
pub mod Laws
pub mod Bounds
use os_2024_operatingstress.Base.{
  ℕ, zero, suc, ◌+◌, ◌*◌, ◌/◌, ◌%◌, List, [], ◌∷◌, ◌++◌, take, drop, get_or,
}
use os_2024_operatingstress.Fat32.Types.{DirectoryEntry, DirectoryTable, DriverRequest}

-- A `uint16_t` and a `uint32_t` in front of the bytes that follow.
abbrev pub u16 : ℕ → List ℕ → List ℕ
u16 x bs = (x % 256) ∷ (x / 256 % 256) ∷ bs

abbrev pub u32 : ℕ → List ℕ → List ℕ
u32 x bs = (x % 256) ∷ (x / 256 % 256) ∷ (x / 65536 % 256) ∷ (x / 16777216 % 256) ∷ bs

abbrev pub get_u16 : List ℕ → ℕ → ℕ
get_u16 bs i = get_or bs i 0 + 256 * get_or bs (suc i) 0

abbrev pub get_u32 : List ℕ → ℕ → ℕ
get_u32 bs i =
    get_or bs i 0
    + 256 * get_or bs (suc i) 0
    + 65536 * get_or bs (suc (suc i)) 0
    + 16777216 * get_or bs (suc (suc (suc i))) 0

-- The 21 bytes behind `name` and `ext`.
abbrev pub encode_fields : DirectoryEntry → List ℕ
encode_fields e =
    e.attribute
    ∷ e.user_attribute
    ∷ e.undelete
    ∷ u16 e.create_time (
        u16 e.create_date (
          u16 e.access_date (
            u16 e.cluster_high
              (u16 e.modified_time (u16 e.modified_date (u16 e.cluster_low (u32 e.filesize [])))))))

unfoldable pub encode_entry : DirectoryEntry → List ℕ
encode_entry e = e.name ++ (e.ext ++ encode_fields e)

abbrev pub decode_parts : List ℕ → List ℕ → List ℕ → DirectoryEntry
decode_parts name ext fields = record {
  name = name;
  ext = ext;
  attribute = get_or fields 0 0;
  user_attribute = get_or fields 1 0;
  undelete = get_or fields 2 0;
  create_time = get_u16 fields 3;
  create_date = get_u16 fields 5;
  access_date = get_u16 fields 7;
  cluster_high = get_u16 fields 9;
  modified_time = get_u16 fields 11;
  modified_date = get_u16 fields 13;
  cluster_low = get_u16 fields 15;
  filesize = get_u32 fields 17;
}

unfoldable pub decode_entry : List ℕ → DirectoryEntry
decode_entry bs = decode_parts (take 8 bs) (take 3 (drop 8 bs)) (drop 3 (drop 8 bs))

unfoldable pub encode_table : DirectoryTable → List ℕ
encode_table [] = []
encode_table (e ∷ es) = encode_entry e ++ encode_table es

-- `n` entries of 32 bytes.
unfoldable pub decode_table : ℕ → List ℕ → DirectoryTable
decode_table zero bs = []
decode_table (suc n) bs = decode_entry bs ∷ decode_table n (drop 32 bs)

pub encode_fat : List ℕ → List ℕ
encode_fat [] = []
encode_fat (v ∷ vs) = u32 v (encode_fat vs)

pub decode_fat : ℕ → List ℕ → List ℕ
decode_fat zero bs = []
decode_fat (suc n) bs = get_u32 bs 0 ∷ decode_fat n (drop 4 bs)

-- A packed request from its field `name` on.
unfoldable pub request_bytes : DriverRequest → List ℕ
request_bytes r = r.name ++ (r.ext ++ u32 r.parent_cluster_number (u32 r.buffer_size []))

-- ===== src/Fat32/Codec/Bounds.antt =====
-- Structures decoded from bytes have the sizes that they declare, and encode to bytes.
use os_2024_operatingstress.Base.{
  ℕ, zero, suc, ◌*◌, ◌^◌, ◌<◌, ◌≤◌, ◌≡◌, refl, List, [], ◌∷◌, ◌++◌, arith, All, drop, get_or,
  length, ap, All-take, All-drop, All-append, length-take, length-drop,
}
use os_2024_operatingstress.Fat32.Types.{DirectoryEntry, DirectoryTable, IsEntry, IsTable, IsFat}
use os_2024_operatingstress.Fat32.Codec.{
  get_u16, get_u32, encode_fields, encode_entry, decode_entry, encode_table, decode_table,
  encode_fat, decode_fat,
}

-- Bytes
abbrev pub Bytes : List ℕ → Type 0
Bytes bs = All (λ b. b < 256) bs

get_or-lt : (bs : List ℕ) (i : ℕ) → Bytes bs → get_or bs i 0 < 256
get_or-lt [] i h = omega arith
get_or-lt (b ∷ bs) zero h = h.0
get_or-lt (b ∷ bs) (suc i) h = get_or-lt bs i h.1

get_u16-lt : (bs : List ℕ) (i : ℕ) → Bytes bs → get_u16 bs i < 2 ^ 16
get_u16-lt bs i h = omega (arith, get_or-lt bs i h, get_or-lt bs (suc i) h)

get_u32-lt : (bs : List ℕ) (i : ℕ) → Bytes bs → get_u32 bs i < 2 ^ 32
get_u32-lt bs i h = omega (
  arith,
  get_or-lt bs i h,
  get_or-lt bs (suc i) h,
  get_or-lt bs (suc (suc i)) h,
  get_or-lt bs (suc (suc (suc i))) h,
)

decode_entry-IsEntry : (bs : List ℕ) → 32 ≤ length bs → Bytes bs → IsEntry (decode_entry bs)
unfolding decode_entry
decode_entry-IsEntry bs n h = record {
  name = length-take 8 bs (omega arith);
  ext = length-take 3 (drop 8 bs) (omega (arith, length-drop 8 bs));
  name_bytes = All-take (λ b. b < 256) 8 bs h;
  ext_bytes = All-take (λ b. b < 256) 3 (drop 8 bs) rest;
  attribute = get_or-lt fields 0 all;
  user_attribute = get_or-lt fields 1 all;
  undelete = get_or-lt fields 2 all;
  create_time = get_u16-lt fields 3 all;
  create_date = get_u16-lt fields 5 all;
  access_date = get_u16-lt fields 7 all;
  cluster_high = get_u16-lt fields 9 all;
  modified_time = get_u16-lt fields 11 all;
  modified_date = get_u16-lt fields 13 all;
  cluster_low = get_u16-lt fields 15 all;
  filesize = get_u32-lt fields 17 all;
}
  where
    rest : Bytes (drop 8 bs)
    rest = All-drop (λ b. b < 256) 8 bs h

    fields : List ℕ
    fields = drop 3 (drop 8 bs)

    all : Bytes (drop 3 (drop 8 bs))
    all = All-drop (λ b. b < 256) 3 (drop 8 bs) rest

decode_table-entries :
    (n : ℕ) (bs : List ℕ)
    → n * 32 ≤ length bs
    → Bytes bs
    → (length (decode_table n bs) ≡ n) × All IsEntry (decode_table n bs)
unfolding decode_table
decode_table-entries zero bs k h = (refl, tt)
decode_table-entries (suc n) bs k h =
    let ih =
      decode_table-entries n (drop 32 bs) (omega (arith, length-drop 32 bs))
        (All-drop (λ b. b < 256) 32 bs h) in
    (ap suc ih.0, (decode_entry-IsEntry bs (omega arith) h, ih.1))

-- A cluster of bytes decodes to a table of 64 entries whose fields are in range.
pub decode_table-IsTable :
    (bs : List ℕ) → length bs ≡ 2048 → Bytes bs → IsTable (decode_table 64 bs)
decode_table-IsTable bs n h =
    let lem = decode_table-entries 64 bs (omega arith) h in record { size = lem.0; entries = lem.1 }

decode_fat-entries :
    (n : ℕ) (bs : List ℕ)
    → Bytes bs
    → (length (decode_fat n bs) ≡ n) × All (λ v. v < 2 ^ 32) (decode_fat n bs)
unfolding decode_fat
decode_fat-entries zero bs h = (refl, tt)
decode_fat-entries (suc n) bs h =
    let ih = decode_fat-entries n (drop 4 bs) (All-drop (λ b. b < 256) 4 bs h) in
    (ap suc ih.0, (get_u32-lt bs 0 h, ih.1))

pub decode_fat-IsFat : (bs : List ℕ) → Bytes bs → IsFat (decode_fat 512 bs)
decode_fat-IsFat bs h =
    let lem = decode_fat-entries 512 bs h in record { size = lem.0; entries = lem.1 }

encode_entry-Bytes : (e : DirectoryEntry) → IsEntry e → Bytes (encode_entry e)
unfolding encode_entry
encode_entry-Bytes e v =
    All-append (λ b. b < 256) e.name (e.ext ++ encode_fields e) v.name_bytes
      (All-append (λ b. b < 256) e.ext (encode_fields e) v.ext_bytes (omega arith))

pub encode_table-Bytes : (t : DirectoryTable) → All IsEntry t → Bytes (encode_table t)
unfolding encode_table
encode_table-Bytes [] v = tt
encode_table-Bytes (e ∷ es) v =
    All-append (λ b. b < 256) (encode_entry e) (encode_table es) (encode_entry-Bytes e v.0)
      (encode_table-Bytes es v.1)

pub encode_fat-Bytes : (fat : List ℕ) → Bytes (encode_fat fat)
unfolding encode_fat
encode_fat-Bytes [] = tt
encode_fat-Bytes (v ∷ vs) =
    (omega arith, (omega arith, (omega arith, (omega arith, encode_fat-Bytes vs))))

-- ===== src/Fat32/Codec/Laws.antt =====
-- Decoding a structure gives back what was encoded.
use os_2024_operatingstress.Base.{
  ℕ, zero, suc, ◌+◌, ◌*◌, ◌^◌, ◌<◌, ◌≡◌, refl, List, [], ◌∷◌, ◌++◌, arith, All, drop, length,
  take-append, drop-append, length-append, ap, ap₂, ◌∙◌, ◌%◌, ◌/◌,
}
use mathlib.Core.List.{append_assoc}
use os_2024_operatingstress.Fat32.Types.{DirectoryEntry, DirectoryTable, IsEntry, IsTable, IsFat}
use os_2024_operatingstress.Fat32.Codec.{
  encode_fields, encode_entry, decode_entry, decode_parts, encode_table, decode_table, encode_fat,
  decode_fat,
}

decode_parts-encode_fields :
    (e : DirectoryEntry) (rest : List ℕ)
    → IsEntry e
    → decode_parts e.name e.ext (encode_fields e ++ rest) ≡ e
decode_parts-encode_fields e rest v = ground arith

pub length-encode_entry : (e : DirectoryEntry) → IsEntry e → length (encode_entry e) ≡ 32
unfolding encode_entry
length-encode_entry e v = omega (
  arith,
  length-append e.name (e.ext ++ encode_fields e),
  length-append e.ext (encode_fields e),
  v.name,
  v.ext,
)

module _ (e : DirectoryEntry) (rest : List ℕ) (v : IsEntry e) where
  front : encode_entry e ++ rest ≡ e.name ++ (e.ext ++ (encode_fields e ++ rest))
  unfolding encode_entry
  front = simp append_assoc

  -- A directory entry survives the way to the disk and back.
  pub decode_entry-encode_entry : decode_entry (encode_entry e ++ rest) ≡ e
  unfolding decode_entry
  decode_entry-encode_entry =
      rw
        (
          front,
          take-append e.name (e.ext ++ (encode_fields e ++ rest)) 8 v.name,
          drop-append e.name (e.ext ++ (encode_fields e ++ rest)) 8 v.name,
          take-append e.ext (encode_fields e ++ rest) 3 v.ext,
          drop-append e.ext (encode_fields e ++ rest) 3 v.ext,
        )
        (decode_parts-encode_fields e rest v)

  drop-encode_entry : drop 32 (encode_entry e ++ rest) ≡ rest
  drop-encode_entry = drop-append (encode_entry e) rest 32 (length-encode_entry e v)

pub length-encode_table :
    (t : DirectoryTable) → All IsEntry t → length (encode_table t) ≡ 32 * length t
unfolding encode_table
length-encode_table [] v = refl
length-encode_table (e ∷ es) v = omega (
  arith,
  length-append (encode_entry e) (encode_table es),
  length-encode_entry e v.0,
  length-encode_table es v.1,
)

decode_table-encode :
    (t : DirectoryTable) (n : ℕ)
    → length t ≡ n
    → All IsEntry t
    → decode_table n (encode_table t) ≡ t
unfolding decode_table encode_table
decode_table-encode [] zero h v = refl
decode_table-encode [] (suc n) h v = absurd (omega arith)
decode_table-encode (e ∷ es) zero h v = absurd (omega arith)
decode_table-encode (e ∷ es) (suc n) h v =
    ap₂ ◌∷◌ (decode_entry-encode_entry e (encode_table es) v.0) (
      ap (decode_table n) (drop-encode_entry e (encode_table es) v.0)
      ∙ decode_table-encode es n (omega arith) v.1)

-- The bytes of a directory table of 64 entries in the declared sizes decode to that table.
pub decode_table-encode_table :
    (t : DirectoryTable) → IsTable t → decode_table 64 (encode_table t) ≡ t
decode_table-encode_table t v = decode_table-encode t 64 v.size v.entries

pub length-encode_fat : (fat : List ℕ) → length (encode_fat fat) ≡ 4 * length fat
unfolding encode_fat
length-encode_fat [] = refl
length-encode_fat (v ∷ vs) = omega (arith, length-encode_fat vs)

decode_fat-encode :
    (fat : List ℕ) (n : ℕ)
    → length fat ≡ n
    → All (λ v. v < 2 ^ 32) fat
    → decode_fat n (encode_fat fat) ≡ fat
unfolding decode_fat encode_fat
decode_fat-encode [] zero h v = refl
decode_fat-encode [] (suc n) h v = absurd (omega arith)
decode_fat-encode (x ∷ xs) zero h v = absurd (omega arith)
decode_fat-encode (x ∷ xs) (suc n) h v =
    ap₂ ◌∷◌ (low x v.0) (decode_fat-encode xs n (omega arith) v.1)
  where
    low :
        (y : ℕ)
        → y < 2 ^ 32
        → y % 256
            + 256 * (y / 256 % 256)
            + 65536 * (y / 65536 % 256)
            + 16777216 * (y / 16777216 % 256)
          ≡ y
    low y h = omega arith

-- The bytes of an allocation table of 512 words of 32 bits decode to that table.
pub decode_fat-encode_fat : (fat : List ℕ) → IsFat fat → decode_fat 512 (encode_fat fat) ≡ fat
decode_fat-encode_fat fat v = decode_fat-encode fat 512 v.size v.entries

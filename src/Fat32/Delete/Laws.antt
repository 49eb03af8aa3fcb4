-- ===== src/Fat32/Delete/Laws.antt =====
-- `delete`: which entry it takes for the requested one, and what it leaves on the disk.
use os_2024_operatingstress.Base.{
  ℕ, suc, ◌+◌, ◌≤◌, ◌≡◌, refl, sym, ap, ◌∙◌, ◌≢◌, ◌↔◌, ◌⊎◌, inl, inr, Bool, true, false, Option,
  some, List, [], ◌∷◌, ◌++◌, arith, ℤ, pos, Bool-cases, length, take, length-append, take-append,
  All, take-append_le,
}
use mathlib.Core.List.{append_assoc, append-nil}
use os_2024_operatingstress.Strings.Compare.{memcmp-zero_iff, memcmp-swap, strlen-append_zero}
use os_2024_operatingstress.Fat32.Types.{DirectoryEntry, DirectoryTable, DriverRequest, IsRequest}
use os_2024_operatingstress.Fat32.Codec.{encode_table, encode_entry, encode_fields, request_bytes}
use os_2024_operatingstress.Fat32.Driver.{DriverState, reply, read_table, is_used}
use os_2024_operatingstress.Fat32.Delete.{matches_name, is_zero, delete_scan, delete}

-- The bytes that `table[i].name` points at, for a name that ends within its 8 bytes.
name_bytes :
    (e : DirectoryEntry) (es : DirectoryTable) (text pad : List ℕ)
    → e.name ≡ text ++ 0 ∷ pad
    → (rest : List ℕ) × (encode_table (e ∷ es) ≡ text ++ 0 ∷ rest)
unfolding encode_table encode_entry
name_bytes e es text pad h =
    (pad ++ ((e.ext ++ encode_fields e) ++ encode_table es), rw h (simp append_assoc))

length-request_bytes : (r : DriverRequest) → IsRequest r → length (request_bytes r) ≡ 19
unfolding request_bytes
length-request_bytes r v =
    omega (arith, length-append r.name (r.ext ++ _), length-append r.ext _, v.name, v.ext)

request_front :
    (r : DriverRequest) (k : ℕ) → IsRequest r → k ≤ 8 → take k (request_bytes r) ≡ take k r.name
unfolding request_bytes
request_front r k v h = take-append_le k r.name (r.ext ++ _) (omega (arith, v.name))

is_zero_iff : (z : ℤ) → (is_zero z ≡ true) ↔ (z ≡ pos 0)
is_zero_iff z = (λ h. ground arith, λ h. ground arith)

same_answer : {z w : ℤ} {o : Option ℤ} → o ≡ some z → o ≡ some w → z ≡ w
same_answer p q = cc

-- For a request in its declared sizes and a name that ends within its 8 bytes, the name test of
-- `delete` always has an answer, and it asks only whether the entry's name begins the requested
-- name.
pub matches_name_prefix :
    (r : DriverRequest) (e : DirectoryEntry) (es : DirectoryTable) (text pad : List ℕ)
    → IsRequest r
    → length e.name ≡ 8
    → e.name ≡ text ++ 0 ∷ pad
    → All (λ c. c ≢ 0) text
    → (found : Bool) × (matches_name r (e ∷ es) ≡ some found)
      × ((found ≡ true) ↔ (take (length text) r.name ≡ text))
unfolding matches_name
matches_name_prefix r e es text pad v n h nz =
    let (rest, bytes) = name_bytes e es text pad h in
    let short : length text ≤ 8 = omega (arith, ap length h, length-append text (0 ∷ pad)) in
    let ask : length text ≤ length (request_bytes r) = omega (arith, length-request_bytes r v) in
    let own : length text ≤ length (text ++ 0 ∷ rest) =
      omega (arith, length-append text (0 ∷ rest)) in
    let (z, compared, swapped) =
      memcmp-swap (length text) (request_bytes r) (text ++ 0 ∷ rest) ask own in
    let zero_iff = memcmp-zero_iff (length text) (request_bytes r) (text ++ 0 ∷ rest) ask own in
    let front = request_front r (length text) v short in
    let whole = take-append text (0 ∷ rest) (length text) refl in
    (
      is_zero z,
      rw (bytes, strlen-append_zero text rest nz, compared),
      (
        λ t. sym front ∙ (zero_iff.0 (compared ∙ ap some ((is_zero_iff z).0 t)) ∙ whole),
        λ t. (is_zero_iff z).1 (same_answer compared (zero_iff.1 (front ∙ (t ∙ sym whole)))),
      ),
    )

-- The entries that the loop of `delete` passes over, followed by the entries `tail`.
abbrev pub Skips : DriverRequest → DirectoryTable → DirectoryTable → Type 0
Skips r [] tail = Unit
Skips r (x ∷ xs) tail =
    ((is_used x ≡ false) ⊎ (matches_name r (x ∷ (xs ++ tail)) ≡ some false)) × Skips r xs tail

pub delete_scan_skip :
    (r : DriverRequest) (i : ℕ) (xs tail : DirectoryTable) (s : DriverState)
    → Skips r xs tail
    → delete_scan r i (xs ++ tail) s ≡ delete_scan r (i + length xs) tail s
unfolding delete_scan
delete_scan_skip r i [] tail s h = ap (λ k. delete_scan r k tail s) (omega arith)
delete_scan_skip r i (x ∷ xs) tail s h =
    let on : delete_scan r (i + 1) (xs ++ tail) s ≡ delete_scan r (i + suc (length xs)) tail s =
      delete_scan_skip r (i + 1) xs tail s h.1 ∙ ap (λ k. delete_scan r k tail s) (omega arith) in
    skip on h.0
  where
    skip :
        delete_scan r (i + 1) (xs ++ tail) s ≡ delete_scan r (i + suc (length xs)) tail s
        → ((is_used x ≡ false) ⊎ (matches_name r (x ∷ (xs ++ tail)) ≡ some false))
        → delete_scan r i (x ∷ (xs ++ tail)) s ≡ delete_scan r (i + suc (length xs)) tail s
    skip on (inl unused) = rw unused on
    skip on (inr other) = elim (Bool-cases (is_used x)) [
      | inl used ↦ rw (used, other) on
      | inr unused ↦ rw unused on
    ]

-- The directory as `delete` reads it.
abbrev pub loaded : DriverRequest → DriverState → DriverState
loaded r s = record s { dir_table_buf = read_table s.disk r.parent_cluster_number }

-- If the loop passes over every entry behind the first, `delete` answers 1 and the disk is as it
-- was.
pub delete_missing :
    (r : DriverRequest) (s : DriverState) (own : DirectoryEntry) (xs : DirectoryTable)
    → read_table s.disk r.parent_cluster_number ≡ own ∷ xs
    → Skips r xs []
    → delete r s ≡ reply (pos 1) (record s { dir_table_buf = own ∷ xs })
unfolding delete
delete_missing r s own xs t h =
    rw (t, delete)
      (ap (λ l. delete_scan r 1 l (record s { dir_table_buf = own ∷ xs })) (sym (append-nil xs))
        ∙ (delete_scan_skip r 1 xs [] (record s { dir_table_buf = own ∷ xs }) h
            ∙ nothing_left (1 + length xs)))
  where
    nothing_left :
        (i : ℕ)
        → delete_scan r i [] (record s { dir_table_buf = own ∷ xs })
          ≡ reply (pos 1) (record s { dir_table_buf = own ∷ xs })
    nothing_left i = unfold delete_scan in refl

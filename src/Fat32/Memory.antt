-- ===== src/Fat32/Memory.antt =====
-- Runs of bytes in memory: what is loaded after a store, and stores one behind the other.
use os_2024_operatingstress.Base.{
  ℕ, zero, suc, ◌+◌, ◌-◌, ◌≤◌, ◌<◌, ◌≡◌, refl, sym, ap, ap₂, ◌∙◌, fun_ext, ◌⊎◌, List, [], ◌∷◌, ◌++◌,
  arith, ltb, if◌then◌else◌, length, get_or, take, drop, length-append,
}
use os_2024_operatingstress.Strings.{Memory}
use os_2024_operatingstress.Fat32.Driver.{load_bytes, store_bytes}

get_or-append :
    (xs ys : List ℕ) (i : ℕ)
    → get_or (xs ++ ys) i 0
      ≡ (if ltb i (length xs) then get_or xs i 0 else get_or ys (i - length xs) 0)
get_or-append [] ys i = ground arith
get_or-append (x ∷ xs) ys zero = ground arith
get_or-append (x ∷ xs) ys (suc i) = ground (arith, get_or-append xs ys i)

pub store_bytes-append :
    (m : Memory) (p : ℕ) (xs ys : List ℕ)
    → store_bytes (store_bytes m p xs) (p + length xs) ys ≡ store_bytes m p (xs ++ ys)
unfolding store_bytes
store_bytes-append m p xs ys = fun_ext λ a.
    let shift : a - p - length xs ≡ a - (p + length xs) = omega arith in
    ground (arith, length-append xs ys, get_or-append xs ys (a - p), ap (λ k. get_or ys k 0) shift)

-- A store leaves all other addresses alone.
pub store_bytes_outside :
    (m : Memory) (p : ℕ) (bs : List ℕ) (a : ℕ)
    → (a < p) ⊎ (p + length bs ≤ a)
    → store_bytes m p bs a ≡ m a
unfolding store_bytes
store_bytes_outside m p bs a h = ground arith

take-drop :
    (bs : List ℕ) (k n : ℕ)
    → k < length bs
    → take (suc n) (drop k bs) ≡ get_or bs k 0 ∷ take n (drop (suc k) bs)
take-drop [] k n h = elim h [ ]
take-drop (b ∷ bs) zero n h = refl
take-drop (b ∷ bs) (suc k) n h = take-drop bs k n (omega arith)

load_from :
    (n k : ℕ) (m : Memory) (p : ℕ) (bs : List ℕ)
    → k + n ≤ length bs
    → load_bytes (store_bytes m p bs) (p + k) n ≡ take n (drop k bs)
unfolding load_bytes store_bytes
load_from zero k m p bs h = refl
load_from (suc n) k m p bs h =
    let at : p + k - p ≡ k = omega arith in
    let here : store_bytes m p bs (p + k) ≡ get_or bs k 0 =
      ground (arith, ap (λ i. get_or bs i 0) at) in
    let next : p + k + 1 ≡ p + suc k = omega arith in
    ap₂ ◌∷◌ here (
      ap (λ q. load_bytes (store_bytes m p bs) q n) next ∙ load_from n (suc k) m p bs (omega arith))
    ∙ sym (take-drop bs k n (omega arith))

-- Loading where a run was stored gives its first bytes.
pub load_bytes-store_bytes :
    (n : ℕ) (m : Memory) (p : ℕ) (bs : List ℕ)
    → n ≤ length bs
    → load_bytes (store_bytes m p bs) p n ≡ take n bs
load_bytes-store_bytes n m p bs h =
    let at : p ≡ p + 0 = omega arith in
    ap (λ q. load_bytes (store_bytes m p bs) q n) at ∙ load_from n 0 m p bs (omega arith)

-- A store leaves the bytes of a range apart from it.
pub load_bytes_apart :
    (n : ℕ) (m : Memory) (p q : ℕ) (bs : List ℕ)
    → (p + n ≤ q) ⊎ (q + length bs ≤ p)
    → load_bytes (store_bytes m q bs) p n ≡ load_bytes m p n
unfolding load_bytes
load_bytes_apart zero m p q bs h = refl
load_bytes_apart (suc n) m p q bs h =
    ap₂ ◌∷◌ (store_bytes_outside m q bs p (ground arith))
      (load_bytes_apart n m (p + 1) q bs (ground arith))

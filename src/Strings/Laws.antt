-- ===== src/Strings/Laws.antt =====
-- What the block operations of stdlib/string.c leave at every address.
use os_2024_operatingstress.Base.{
  ℕ, zero, suc, ◌+◌, ◌-◌, ◌%◌, ◌≤◌, ◌≡◌, ◌⊎◌, Bool, ◌&&◌, ltb, leb, if◌then◌else◌, arith, ap,
}
use os_2024_operatingstress.Strings.{
  Memory, store, memset_loop, memset, memcpy_loop, memcpy, memmove_down, memmove,
}

-- The addresses from `p` on, `n` of them.
abbrev pub within : ℕ → ℕ → ℕ → Bool
within p n a = leb p a && ltb a (p + n)

memset_loop_lem :
    (n i s c : ℕ) (m : Memory) (a : ℕ)
    → memset_loop n i s c m a ≡ (if within (s + i) n a then c % 256 else m a)
unfolding memset_loop
memset_loop_lem zero i s c m a = ground arith
memset_loop_lem (suc n) i s c m a =
    ground (arith, memset_loop_lem n (i + 1) s c (store m (s + i) (c % 256)) a)

-- After `memset` the addresses of the range hold the low byte of the value, and every other address
-- keeps its byte.
pub memset_lem :
    (s c n : ℕ) (m : Memory) (a : ℕ) → memset s c n m a ≡ (if within s n a then c % 256 else m a)
unfolding memset
memset_lem s c n m a = ground (arith, memset_loop_lem n 0 s c m a)

-- A copy in rising order is right unless the source starts below a destination that it meets.
memcpy_loop_lem :
    (n i dest src : ℕ) (m : Memory) (a : ℕ)
    → (dest ≤ src) ⊎ (src + (i + n) ≤ dest)
    → memcpy_loop n i dest src m a ≡ (if within (dest + i) n a then m (src + (a - dest)) else m a)
unfolding memcpy_loop
memcpy_loop_lem zero i dest src m a h = ground arith
memcpy_loop_lem (suc n) i dest src m a h = ground (
  arith,
  memcpy_loop_lem n (i + 1) dest src (store m (dest + i) (m (src + i))) a (ground arith),
  λ (e : a ≡ dest + i). ap (λ (k : ℕ). m (src + k)) (e' e),
)
  where
    e' : a ≡ dest + i → a - dest ≡ i
    e' h = omega arith

-- Unless the source starts below a destination that it meets, `memcpy` leaves the old bytes of the
-- source at the destination and every other address as it was.
pub memcpy_lem :
    (dest src n : ℕ) (m : Memory) (a : ℕ)
    → (dest ≤ src) ⊎ (src + n ≤ dest)
    → memcpy dest src n m a ≡ (if within dest n a then m (src + (a - dest)) else m a)
unfolding memcpy
memcpy_lem dest src n m a h = ground (arith, memcpy_loop_lem n 0 dest src m a)

memmove_down_lem :
    (n dest src : ℕ) (m : Memory) (a : ℕ)
    → src ≤ dest
    → memmove_down n dest src m a ≡ (if within dest n a then m (src + (a - dest)) else m a)
unfolding memmove_down
memmove_down_lem zero dest src m a h = ground arith
memmove_down_lem (suc n) dest src m a h = ground (
  arith,
  memmove_down_lem n dest src (store m (dest + n) (m (src + n))) a,
  λ (e : a - dest ≡ n). ap (λ (k : ℕ). m (src + k)) e,
)

-- After `memmove` the destination holds the old bytes of the source, however the two overlap, and
-- every other address keeps its byte.
pub memmove_lem :
    (dest src n : ℕ) (m : Memory) (a : ℕ)
    → memmove dest src n m a ≡ (if within dest n a then m (src + (a - dest)) else m a)
unfolding memmove
memmove_lem dest src n m a =
    ground (arith, memcpy_loop_lem n 0 dest src m a, memmove_down_lem n dest src m a)

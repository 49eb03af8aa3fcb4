-- ===== src/Strings.antt =====
-- src/stdlib/string.c. Memory is a function from addresses to bytes. A pointer that is only read
-- through is the list of the bytes from it on; reading past that list is a fault, `none`.
pub mod Laws
pub mod Compare
mod Tests
use os_2024_operatingstress.Base.{
  ℕ, zero, suc, ◌+◌, ◌-◌, ◌%◌, ℤ, pos, negsuc, Option, none, some, List, [], ◌∷◌, ltb, ◌==◌,
  if◌then◌else◌, get_or, length, ◌&&◌, leb,
}

abbrev pub Memory : Type 0
Memory = ℕ → ℕ

-- `p[0] = b`
abbrev pub store : Memory → ℕ → ℕ → Memory
store m p b a = if a == p then b else m a

-- The rounds of the loop from index `i` on, `n` of them left.
memset_loop : ℕ → ℕ → ℕ → ℕ → Memory → Memory
memset_loop zero i s c m = m
memset_loop (suc n) i s c m = memset_loop n (i + 1) s c (store m (s + i) (c % 256))

pub memset : ℕ → ℕ → ℕ → Memory → Memory
unfolding memset_loop
memset s c n m = memset_loop n 0 s c m

memcpy_loop : ℕ → ℕ → ℕ → ℕ → Memory → Memory
memcpy_loop zero i dest src m = m
memcpy_loop (suc n) i dest src m = memcpy_loop n (i + 1) dest src (store m (dest + i) (m (src + i)))

pub memcpy : ℕ → ℕ → ℕ → Memory → Memory
unfolding memcpy_loop
memcpy dest src n m = memcpy_loop n 0 dest src m

-- `for (i = n; i != 0; i--) dst[i - 1] = src[i - 1]`
memmove_down : ℕ → ℕ → ℕ → Memory → Memory
memmove_down zero dest src m = m
memmove_down (suc n) dest src m = memmove_down n dest src (store m (dest + n) (m (src + n)))

pub memmove : ℕ → ℕ → ℕ → Memory → Memory
unfolding memcpy_loop memmove_down
memmove dest src n m =
    if ltb dest src then memcpy_loop n 0 dest src m else memmove_down n dest src m

-- -1, 1 or 0 by the first byte that differs among the first `n`.
unfoldable pub memcmp : List ℕ → List ℕ → ℕ → Option ℤ
memcmp s1 s2 zero = some (pos 0)
memcmp [] s2 (suc n) = none
memcmp (a ∷ s1) [] (suc n) = none
memcmp (a ∷ s1) (b ∷ s2) (suc n) =
    if ltb a b then some (negsuc 0) else if ltb b a then some (pos 1) else memcmp s1 s2 n

-- The index of the first zero byte.
unfoldable pub strlen : List ℕ → Option ℕ
strlen [] = none
strlen (c ∷ str) =
    let rest = strlen str in
    if c == 0 then some 0 else elim rest [ none ↦ none | some n ↦ some (suc n) ]

-- `size_t len(char *)`, the same loop over an unsigned counter.
unfoldable pub string_len : List ℕ → Option ℕ
string_len [] = none
string_len (c ∷ str) =
    let rest = string_len str in
    if c == 0 then some 0 else elim rest [ none ↦ none | some n ↦ some (suc n) ]

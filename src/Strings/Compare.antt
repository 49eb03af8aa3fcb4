-- ===== src/Strings/Compare.antt =====
-- `memcmp`, `strlen` and `len` of stdlib/string.c against equality of lists and the first zero
-- byte.
use os_2024_operatingstress.Base.{
  ℕ, zero, suc, ◌≤◌, ◌≡◌, refl, ◌≢◌, inl, inr, ltb, arith, Bool-cases, ℤ, pos, negsuc, some, List,
  [], ◌∷◌, length, take, get_elem?, ◌↔◌, All, ◌++◌,
}
use os_2024_operatingstress.Strings.{memcmp, strlen, string_len}

-- The sign of the comparison with its arguments swapped.
unfoldable pub opposite : ℤ → ℤ
opposite (pos zero) = pos 0
opposite (pos (suc n)) = negsuc n
opposite (negsuc n) = pos (suc n)

-- Within both buffers `memcmp` answers 0 exactly when the first `n` bytes agree.
pub memcmp-zero_iff :
    (n : ℕ) (xs ys : List ℕ)
    → n ≤ length xs
    → n ≤ length ys
    → (memcmp xs ys n ≡ some (pos 0)) ↔ (take n xs ≡ take n ys)
unfolding memcmp
memcmp-zero_iff zero xs ys p q = (λ h. refl, λ h. refl)
memcmp-zero_iff (suc n) [] ys p q = absurd (omega arith)
memcmp-zero_iff (suc n) (x ∷ xs) [] p q = absurd (omega arith)
memcmp-zero_iff (suc n) (x ∷ xs) (y ∷ ys) p q =
    let ih = memcmp-zero_iff n xs ys (omega arith) (omega arith) in
    (λ h. ground (arith, ih.0), λ h. ground (arith, ih.1))

-- Within both buffers `memcmp` always has an answer, and swapping the buffers swaps its sign.
pub memcmp-swap :
    (n : ℕ) (xs ys : List ℕ)
    → n ≤ length xs
    → n ≤ length ys
    → (r : ℤ) × (memcmp xs ys n ≡ some r) × (memcmp ys xs n ≡ some (opposite r))
unfolding memcmp opposite
memcmp-swap zero xs ys p q = (pos 0, refl, refl)
memcmp-swap (suc n) [] ys p q = absurd (omega arith)
memcmp-swap (suc n) (x ∷ xs) [] p q = absurd (omega arith)
memcmp-swap (suc n) (x ∷ xs) (y ∷ ys) p q =
    let ih = memcmp-swap n xs ys (omega arith) (omega arith) in
    elim (Bool-cases (ltb x y)) [
      | inl less ↦ (negsuc 0, ground arith, ground arith)
      | inr ge ↦ elim (Bool-cases (ltb y x)) [
        | inl more ↦ (pos 1, ground arith, ground arith)
        | inr le ↦ (ih.0, ground (arith, ih.1), ground (arith, ih.2))
      ]
    ]

-- A text followed by a zero byte has its own length, whatever comes behind.
pub strlen-append_zero :
    (xs rest : List ℕ) → All (λ c. c ≢ 0) xs → strlen (xs ++ 0 ∷ rest) ≡ some (length xs)
unfolding strlen
strlen-append_zero [] rest h = refl
strlen-append_zero (x ∷ xs) rest h = ground (arith, strlen-append_zero xs rest h.1)

-- What `strlen` finds is the first zero byte.
pub strlen_first_zero :
    (str : List ℕ) (n : ℕ)
    → strlen str ≡ some n
    → (get_elem? str n ≡ some 0) × All (λ c. c ≢ 0) (take n str)
unfolding strlen
strlen_first_zero [] n h = cc
strlen_first_zero (c ∷ str) zero h = ground arith
strlen_first_zero (c ∷ str) (suc n) h = ground (arith, strlen_first_zero str n)

pub string_len-eq-strlen : (str : List ℕ) → string_len str ≡ strlen str
unfolding string_len strlen
string_len-eq-strlen [] = refl
string_len-eq-strlen (c ∷ str) = rw (string_len-eq-strlen str)

-- ===== src/Netip/Bits.antt =====
-- Bits of byte sequences, most significant first: the value of a sequence, and masking.
use native.Mathlib.Nat.{
  pow-zero, pow-suc, one-le-pow, div-div-eq-div-mul, mul-add-div_right, div-eq_of_lt, mul_comm,
  mul-div_cancel, mul-mod_left, div-mul-le_self, zero-div, add-zero, zero-add,
}
use native.Mathlib.Numerals.{towards_suc}
use bitblocker.Base.Powers.{two_pow_pos, pow_add}
use bitblocker.Base.{
  ℕ, zero, suc, ◌+◌, ◌-◌, ◌*◌, ◌/◌, ◌%◌, ◌^◌, ◌≤◌, ◌<◌, min, ◌≡◌, refl, sym, ap, subst, ◌∙◌, List,
  [], ◌∷◌, length, get_or, All, arith,
}

-- `mask_byte k x` keeps the first k bits of a byte.
abbrev mask_byte : ℕ → ℕ → ℕ
mask_byte k x = x / 2 ^ (8 - k) * 2 ^ (8 - k)

-- The bytes with all but the first n bits cleared.
unfoldable pub mask_bytes : ℕ → List ℕ → List ℕ
mask_bytes n [] = []
mask_bytes n (x ∷ xs) = mask_byte (min n 8) x ∷ mask_bytes (n - 8) xs

-- The big-endian value of a byte sequence.
abbrev pub value : List ℕ → ℕ
value [] = 0
value (x ∷ xs) = x * 256 ^ length xs + value xs

pub pow_pos : (e : ℕ) → 0 < 256 ^ e
pow_pos e = one-le-pow e 256 (omega arith)

pub value-lt : (xs : List ℕ) → All (λ b. b < 256) xs → value xs < 256 ^ length xs
value-lt [] h = omega arith
value-lt (x ∷ xs) h = grind (arith, pow-suc 256 (length xs), value-lt xs h.1)

pow_eight : (n : ℕ) → 2 ^ (n + 8) ≡ 2 ^ n * 256
pow_eight n = simp towards_suc (omega arith)

-- 2 ^ (8 * e + j) in the two parts by which a byte and a bit in it are found.
pub two_pow_bytes : (e j : ℕ) → 2 ^ (8 * e + j) ≡ 256 ^ e * 2 ^ j
two_pow_bytes zero j = rw (zero-add, pow-zero) (omega arith)
two_pow_bytes (suc e) j =
    ap (λ (n : ℕ). 2 ^ n) shift ∙ pow_eight (8 * e + j) ∙ regroup (two_pow_bytes e j)
  where
    shift : 8 * suc e + j ≡ 8 * e + j + 8
    shift = omega arith

    regroup : 2 ^ (8 * e + j) ≡ 256 ^ e * 2 ^ j → 2 ^ (8 * e + j) * 256 ≡ 256 ^ suc e * 2 ^ j
    regroup h = rw pow-suc (omega (arith, ap (λ (n : ℕ). n * 256) h))

top_byte : (x p v : ℕ) → v < p → (x * p + v) / p ≡ x
top_byte x p v h = mul-add-div_right (omega arith) x v ∙ rw (div-eq_of_lt h) (add-zero x)

high_part :
    (x q e v l : ℕ) → l ≡ q + suc e → (x * 256 ^ l + v) / 256 ^ e ≡ x * 256 ^ q * 256 + v / 256 ^ e
high_part x q e v l h =
    ap (λ (n : ℕ). (n + v) / 256 ^ e) product ∙ mul-add-div_right (pow_pos e) (x * 256 ^ q * 256) v
  where
    product : x * 256 ^ l ≡ x * 256 ^ q * 256 * 256 ^ e
    product = rw (h, pow_add 256 q (suc e), pow-suc 256 e) (omega arith)

low_bit : (j y v : ℕ) → j ≤ 7 → (y * 256 + v) / 2 ^ j % 2 ≡ v / 2 ^ j % 2
low_bit zero y v h = omega arith
low_bit (suc zero) y v h = omega arith
low_bit (suc (suc zero)) y v h = omega arith
low_bit (suc (suc (suc zero))) y v h = omega arith
low_bit (suc (suc (suc (suc zero)))) y v h = omega arith
low_bit (suc (suc (suc (suc (suc zero))))) y v h = omega arith
low_bit (suc (suc (suc (suc (suc (suc zero)))))) y v h = omega arith
low_bit (suc (suc (suc (suc (suc (suc (suc zero))))))) y v h = omega arith
low_bit (suc (suc (suc (suc (suc (suc (suc (suc j)))))))) y v h = absurd (omega arith)

-- The digit of a value at bit 8 * e + j from the right, where the byte has e bytes after it.
pub value-bit :
    (xs : List ℕ) (q e j : ℕ)
    → All (λ b. b < 256) xs
    → length xs ≡ q + suc e
    → j ≤ 7
    → get_or xs q 0 / 2 ^ j % 2 ≡ value xs / 2 ^ (8 * e + j) % 2
value-bit [] q e j h l hj = absurd (omega arith)
value-bit (x ∷ xs) zero e j h l hj = rw (two_pow_bytes e j, ← div-div-eq-div-mul) (rw whole)
  where
    whole : (x * 256 ^ length xs + value xs) / 256 ^ e ≡ x
    whole =
        ap (λ (n : ℕ). (x * 256 ^ n + value xs) / 256 ^ e) (omega arith)
        ∙ top_byte x (256 ^ e) (value xs)
            (subst (λ n. value xs < 256 ^ n) (omega arith) (value-lt xs h.1))
value-bit (x ∷ xs) (suc q) e j h l hj =
    value-bit xs q e j h.1 (omega arith) hj
    ∙ rw (two_pow_bytes e j, ← div-div-eq-div-mul, ← div-div-eq-div-mul)
        (rw (high_part x q e (value xs) (length xs) (omega arith)) (sym (low_bit j _ _ hj)))

mask-div : (x m c : ℕ) → x / 2 ^ m * 2 ^ m / 2 ^ (c + m) ≡ x / 2 ^ (c + m)
mask-div x m c =
    rw (pow_add 2 c m, mul_comm (2 ^ c) (2 ^ m), ← div-div-eq-div-mul, ← div-div-eq-div-mul)
      (ap (λ (n : ℕ). n / 2 ^ c) (mul-div_cancel (x / 2 ^ m) (two_pow_pos m)))

-- Masking to n bits leaves the first n bits alone.
pub get_or-mask_bytes :
    (n : ℕ) (xs : List ℕ) (q j : ℕ)
    → j ≤ 7
    → 8 * q + 7 < n + j
    → get_or (mask_bytes n xs) q 0 / 2 ^ j % 2 ≡ get_or xs q 0 / 2 ^ j % 2
unfolding mask_bytes
get_or-mask_bytes n [] q j hj h = refl
get_or-mask_bytes n (x ∷ xs) zero j hj h =
    ap (λ (t : ℕ). t % 2)
      (subst (λ i. mask_byte (min n 8) x / 2 ^ i ≡ x / 2 ^ i) (omega arith)
        (mask-div x (8 - min n 8) (j - (8 - min n 8))))
get_or-mask_bytes n (x ∷ xs) (suc q) j hj h = get_or-mask_bytes (n - 8) xs q j hj (omega arith)

mask-low : (x m j : ℕ) → j < m → x / 2 ^ m * 2 ^ m / 2 ^ j % 2 ≡ 0
mask-low x m j h =
    ap (λ (n : ℕ). x / 2 ^ m * n / 2 ^ j % 2) split
    ∙ ap (λ (n : ℕ). n / 2 ^ j % 2) (regroup (x / 2 ^ m) (2 ^ (m - suc j)) (2 ^ j))
    ∙ rw (mul-div_cancel (x / 2 ^ m * 2 ^ (m - suc j) * 2) (two_pow_pos j)) (mul-mod_left _ 2)
  where
    split : 2 ^ m ≡ 2 ^ (m - suc j) * (2 ^ j * 2)
    split = ap (λ (n : ℕ). 2 ^ n) (omega arith) ∙ pow_add 2 (m - suc j) (suc j) ∙ rw (pow-suc 2 j)

    regroup : (a b c : ℕ) → a * (b * (c * 2)) ≡ a * b * 2 * c
    regroup a b c = omega arith

-- Masking to n bits clears the bits from the n-th on.
pub get_or-mask_bytes_low :
    (n : ℕ) (xs : List ℕ) (q j : ℕ)
    → j ≤ 7
    → n + j ≤ 8 * q + 7
    → get_or (mask_bytes n xs) q 0 / 2 ^ j % 2 ≡ 0
unfolding mask_bytes
get_or-mask_bytes_low n [] q j hj h = rw zero-div
get_or-mask_bytes_low n (x ∷ xs) zero j hj h = mask-low x (8 - min n 8) j (omega arith)
get_or-mask_bytes_low n (x ∷ xs) (suc q) j hj h =
    get_or-mask_bytes_low (n - 8) xs q j hj (omega arith)

pub length-mask_bytes : (n : ℕ) (xs : List ℕ) → length (mask_bytes n xs) ≡ length xs
unfolding mask_bytes
length-mask_bytes n [] = refl
length-mask_bytes n (x ∷ xs) = ap suc (length-mask_bytes (n - 8) xs)

pub mask_bytes-lt :
    (n : ℕ) (xs : List ℕ) → All (λ b. b < 256) xs → All (λ b. b < 256) (mask_bytes n xs)
unfolding mask_bytes
mask_bytes-lt n [] h = tt
mask_bytes-lt n (x ∷ xs) h =
    (omega (arith, div-mul-le_self x (2 ^ (8 - min n 8))), mask_bytes-lt (n - 8) xs h.1)

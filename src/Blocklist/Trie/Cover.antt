-- ===== src/Blocklist/Trie/Cover.antt =====
-- What the bits that the trie walks say of the number of the address.
use native.Mathlib.Nat.{
  div-div-eq-div-mul, pow-suc, add-zero, add-suc, suc-add, div-eq_of_lt, sub-zero, zero-add,
  mul-one,
}
use native.Mathlib.Decide.{dec_le}
use bitblocker.Base.Powers.{pow_add}
use bitblocker.Base.{
  ℕ, zero, suc, ◌+◌, ◌-◌, ◌*◌, ◌/◌, ◌%◌, ◌^◌, ◌≤◌, ◌<◌, ◌≡◌, refl, sym, ap, subst, ◌∙◌, Bool, ◌&&◌,
  List, length, ◌==◌, arith,
}
use bitblocker.Netip.{IsBytes, block}
use bitblocker.Netip.Bits.{
  value, mask_bytes, value-bit, value-lt, two_pow_bytes, get_or-mask_bytes, get_or-mask_bytes_low,
  length-mask_bytes, mask_bytes-lt,
}
use bitblocker.Blocklist.Trie.{bit_at}
use bitblocker.Blocklist.Trie.Walk.{agree}

bit_at-mask_bytes : (n i : ℕ) (a : List ℕ) → i < n → bit_at (mask_bytes n a) i ≡ bit_at a i
unfolding bit_at
bit_at-mask_bytes n i a h = get_or-mask_bytes n a (i / 8) (7 - i % 8) (omega arith) (omega arith)

-- Masking to n bits does not change the walk of n bits.
pub agree-mask_bytes :
    (n k i : ℕ) (a b : List ℕ) → i + k ≤ n → agree k i (mask_bytes n a) b ≡ agree k i a b
unfolding agree
agree-mask_bytes n zero i a b h = refl
agree-mask_bytes n (suc k) i a b h =
    rw (bit_at-mask_bytes n i a (omega arith), agree-mask_bytes n k (suc i) a b (omega arith))

bit_at-value :
    (l i : ℕ) (a : List ℕ)
    → IsBytes l a
    → i < 8 * l
    → bit_at a i ≡ value a / 2 ^ (8 * l - suc i) % 2
unfolding bit_at
bit_at-value l i a h lt =
    value-bit a (i / 8) (l - suc (i / 8)) (7 - i % 8) h.1 (omega arith) (omega arith)
    ∙ ap (λ (s : ℕ). value a / 2 ^ s % 2) (omega arith)

bit_at-mask_bytes_low : (n i : ℕ) (a : List ℕ) → n ≤ i → bit_at (mask_bytes n a) i ≡ 0
unfolding bit_at
bit_at-mask_bytes_low n i a h =
    get_or-mask_bytes_low n a (i / 8) (7 - i % 8) (omega arith) (omega arith)

pub IsBytes-mask_bytes : (l n : ℕ) (a : List ℕ) → IsBytes l a → IsBytes l (mask_bytes n a)
IsBytes-mask_bytes l n a h = (length-mask_bytes n a ∙ h.0, mask_bytes-lt n a h.1)

eq-halves : (x y : ℕ) → (x == y) ≡ ((x / 2 == y / 2) && (x % 2 == y % 2))
eq-halves x y = ground arith

block-halve : (w i : ℕ) (a : List ℕ) → i < w → block w i a ≡ value a / 2 ^ (w - suc i) / 2
block-halve w i a h =
    ap (λ (s : ℕ). value a / 2 ^ s) next
    ∙ rw (pow-suc 2 (w - suc i)) (sym (div-div-eq-div-mul (value a) (2 ^ (w - suc i)) 2))
  where
    next : w - i ≡ suc (w - suc i)
    next = omega arith

-- There is one block of length 0.
block-zero : (l : ℕ) (a : List ℕ) → IsBytes l a → block (8 * l) 0 a ≡ 0
block-zero l a h = div-eq_of_lt (subst (λ (s : ℕ). value a < s) power (value-lt a h.1))
  where
    power : 256 ^ length a ≡ 2 ^ (8 * l - 0)
    power =
        rw (h.0, sub-zero)
          (sym (
            ap (λ (n : ℕ). 2 ^ n) (sym (add-zero (8 * l))) ∙ two_pow_bytes l 0 ∙ mul-one (256 ^ l)))

and_assoc : (a b c : Bool) → ((a && b) && c) ≡ (a && (b && c))
and_assoc a b c = ground arith

module _ (l : ℕ) (a b : List ℕ) (ha : IsBytes l a) (hb : IsBytes l b) where
  same_block_step :
      (i : ℕ)
      → i < 8 * l
      → (block (8 * l) (suc i) a == block (8 * l) (suc i) b)
        ≡ ((block (8 * l) i a == block (8 * l) i b) && (bit_at a i == bit_at b i))
  same_block_step i lt =
      rw
        (
          block-halve (8 * l) i a lt,
          block-halve (8 * l) i b lt,
          bit_at-value l i a ha lt,
          bit_at-value l i b hb lt,
        )
        (eq-halves _ _)

  agree-block :
      (k i : ℕ)
      → i + k ≤ 8 * l
      → (block (8 * l) (i + k) a == block (8 * l) (i + k) b)
        ≡ ((block (8 * l) i a == block (8 * l) i b) && agree k i a b)
  unfolding agree
  agree-block zero i h = ground (
    arith,
    ap (λ (n : ℕ). block (8 * l) n a) (add-zero i),
    ap (λ (n : ℕ). block (8 * l) n b) (add-zero i),
  )
  agree-block (suc k) i h =
      rw (add-suc i k, ← suc-add i k)
        (agree-block k (suc i) (omega arith)
          ∙ rw (same_block_step i (omega arith))
              (and_assoc (block (8 * l) i a == block (8 * l) i b) _ _))

  -- The walk of n bits finds out whether the two addresses lie in the same block of length n.
  pub agree-eq-block :
      (n : ℕ) → n ≤ 8 * l → agree n 0 a b ≡ (block (8 * l) n a == block (8 * l) n b)
  agree-eq-block n h = ground (
    arith,
    agree-block n 0 (omega arith),
    ap (λ (i : ℕ). block (8 * l) i a) (zero-add n),
    ap (λ (i : ℕ). block (8 * l) i b) (zero-add n),
    block-zero l a ha,
    block-zero l b hb,
  )

-- A prefix whose masked address is an embedded IPv4 address has at least 96 bits, and its own
-- address is one.
pub mapped-mask_bytes :
    (n : ℕ) (a : List ℕ)
    → IsBytes 16 a
    → n ≤ 128
    → block 128 96 (mask_bytes n a) ≡ 65535
    → (96 ≤ n) × (block 128 96 a ≡ 65535)
mapped-mask_bytes n a h hn e = (long, ground (arith, same, own))
  where
    masked_bytes : IsBytes 16 (mask_bytes n a)
    masked_bytes = IsBytes-mask_bytes 16 n a h

    long : 96 ≤ n
    long = elim (dec_le 96 n) [
      | yes p ↦ p
      | no p ↦ absurd (
          omega (
            arith,
            bit_at-mask_bytes_low n 95 a (omega arith),
            bit_at-value 16 95 (mask_bytes n a) masked_bytes (omega arith),
          ))
    ]

    same : agree 96 0 a a ≡ (block 128 96 (mask_bytes n a) == block 128 96 a)
    same =
        sym (agree-mask_bytes n 96 0 a a (omega (arith, long)))
        ∙ agree-eq-block 16 (mask_bytes n a) a masked_bytes h 96 (omega arith)

    own : agree 96 0 a a ≡ (block 128 96 a == block 128 96 a)
    own = agree-eq-block 16 a a h h 96 (omega arith)

-- A block of length m holds the block of length n of the same address.
pub block-coarser :
    (w m n : ℕ) (a : List ℕ) → m ≤ n → n ≤ w → block w m a ≡ block w n a / 2 ^ (n - m)
block-coarser w m n a h k =
    ap (λ (s : ℕ). value a / 2 ^ s) split
    ∙ rw (pow_add 2 (w - n) (n - m))
        (sym (div-div-eq-div-mul (value a) (2 ^ (w - n)) (2 ^ (n - m))))
  where
    split : w - m ≡ w - n + (n - m)
    split = omega arith

pub agree_comm : (k i : ℕ) (a b : List ℕ) → agree k i a b ≡ agree k i b a
unfolding agree
agree_comm zero i a b = refl
agree_comm (suc k) i a b = ground (arith, agree_comm k (suc i) a b)

-- The converse: such a prefix is embedded after masking too.
pub mapped-mask_bytes_of :
    (n : ℕ) (a : List ℕ)
    → IsBytes 16 a
    → 96 ≤ n
    → block 128 96 a ≡ 65535
    → block 128 96 (mask_bytes n a) ≡ 65535
mapped-mask_bytes_of n a h long e = ground (
  arith,
  agree-mask_bytes n 96 0 a a (omega (arith, long)),
  agree-eq-block 16 (mask_bytes n a) a (IsBytes-mask_bytes 16 n a h) h 96 (omega arith),
  agree-eq-block 16 a a h h 96 (omega arith),
)

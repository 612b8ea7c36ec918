-- ===== src/Mmdb/Networks.antt =====
-- internal/mmdb/loader.go: the networks of a database as prefixes. `Mask.Size` measures every mask
-- that `net.CIDRMask` makes.
use bitblocker.Base.{
  ℕ, zero, suc, ◌-◌, ◌*◌, ◌^◌, ◌≤◌, ◌<◌, min, ◌≡◌, ◌⊎◌, inl, inr, refl, ap, String, true, false,
  some, List, [], ◌∷◌, length, ◌==◌, arith, Bool-cases, ltb, ltb→lt, if◌then◌else◌,
}
use bitblocker.Netip.{IsAddr, Addr, zero_addr, v4, v6, Prefix, prefix_from, IsPrefix, IsBytes}
use bitblocker.Mmdb.{leading_ones, all_zero, mask_length, mask_ones, prefix_from_ip_net, Row, row}

-- `net.CIDRMask` of `ones` ones, in a number of bytes.
unfoldable pub cidr_mask : ℕ → ℕ → List ℕ
cidr_mask ones zero = []
cidr_mask ones (suc bytes) = (256 - 2 ^ (8 - min ones 8)) ∷ cidr_mask (ones - 8) bytes

all_zero-cidr_mask : (bytes : ℕ) → all_zero (cidr_mask 0 bytes) ≡ true
unfolding cidr_mask
all_zero-cidr_mask zero = refl
all_zero-cidr_mask (suc bytes) = ground (arith, all_zero-cidr_mask bytes)

-- The byte with n leading ones is not the full one, and the loop counts its ones.
leading_ones_lem :
    (n : ℕ)
    → n < 8
    → (leading_ones 8 (256 - 2 ^ (8 - n)) ≡ (n, true)) × ((256 - 2 ^ (8 - n) == 255) ≡ false)
unfolding leading_ones
leading_ones_lem zero h = (refl, refl)
leading_ones_lem (suc zero) h = (refl, refl)
leading_ones_lem (suc (suc zero)) h = (refl, refl)
leading_ones_lem (suc (suc (suc zero))) h = (refl, refl)
leading_ones_lem (suc (suc (suc (suc zero)))) h = (refl, refl)
leading_ones_lem (suc (suc (suc (suc (suc zero))))) h = (refl, refl)
leading_ones_lem (suc (suc (suc (suc (suc (suc zero)))))) h = (refl, refl)
leading_ones_lem (suc (suc (suc (suc (suc (suc (suc zero))))))) h = (refl, refl)
leading_ones_lem (suc (suc (suc (suc (suc (suc (suc (suc n)))))))) h = absurd (omega arith)

mask_length-cidr_mask : (n bytes : ℕ) → n ≤ 8 * bytes → mask_length (cidr_mask n bytes) ≡ some n
unfolding mask_length cidr_mask
mask_length-cidr_mask n zero h = ap some (omega arith)
mask_length-cidr_mask n (suc bytes) h = elim (Bool-cases (ltb n 8)) [
  | inl lt ↦
      let small : n < 8 = ltb→lt n 8 lt in
      let low : min n 8 ≡ n = omega arith in
      let none_left : n - 8 ≡ 0 = omega arith in
      let (ones, other) = leading_ones_lem n small in
      rw (low, none_left, other, ones, all_zero-cidr_mask bytes) refl
  | inr ge ↦
      let big : 8 ≤ n = ground arith in
      let full : min n 8 ≡ 8 = omega arith in
      let rest = mask_length-cidr_mask (n - 8) bytes (omega arith) in
      rw (full, rest) (ap some (omega arith))
]

-- The mask of `ones` ones has size `ones`.
pub mask_ones-cidr_mask : (n bytes : ℕ) → n ≤ 8 * bytes → mask_ones (cidr_mask n bytes) ≡ n
unfolding mask_ones
mask_ones-cidr_mask n bytes h = rw (mask_length-cidr_mask n bytes h, mask_ones) refl

-- A network of the database: its first address, its length and the code of its country.
pub record Network : Type 0 where
  pub bytes : List ℕ
  pub bits : ℕ
  pub country : String

-- An IPv4 network has 4 bytes and at most 32 bits, an IPv6 network 16 bytes and at most 128 bits.
abbrev pub IsNetwork : Network → Type 0
IsNetwork n = (IsBytes 4 n.bytes × (n.bits ≤ 32)) ⊎ (IsBytes 16 n.bytes × (n.bits ≤ 128))

-- The row that the reader gives for a network.
abbrev pub row_of : Network → Row
row_of n = row (some (record { ip = n.bytes; mask = cidr_mask n.bits (length n.bytes) })) n.country

abbrev pub address_of : Network → Addr
address_of n = if length n.bytes == 4 then v4 n.bytes else v6 n.bytes ""

abbrev pub prefix_of : Network → Prefix
prefix_of n = prefix_from (address_of n) n.bits

prefix_from-IsPrefix : (a : Addr) (bits : ℕ) → IsAddr a → IsPrefix (prefix_from a bits)
unfolding prefix_from
prefix_from-IsPrefix zero_addr bits h = ground arith
prefix_from-IsPrefix (v4 bytes) bits h = (h, ground arith)
prefix_from-IsPrefix (v6 bytes zone) bits h = (h, ground arith)

pub prefix_of-IsPrefix : (n : Network) → IsNetwork n → IsPrefix (prefix_of n)
prefix_of-IsPrefix n (inl (h, b)) = rw h.0 (prefix_from-IsPrefix (v4 n.bytes) n.bits h)
prefix_of-IsPrefix n (inr (h, b)) = rw h.0 (prefix_from-IsPrefix (v6 n.bytes "") n.bits h)

-- The prefix that the loader makes of a network's row.
pub prefix_from_ip_net-row_of :
    (n : Network)
    → IsNetwork n
    → prefix_from_ip_net (some (record { ip = n.bytes; mask = cidr_mask n.bits (length n.bytes) }))
      ≡ some (prefix_of n)
unfolding prefix_from_ip_net
prefix_from_ip_net-row_of n (inl (h, b)) = rw (h.0, mask_ones-cidr_mask n.bits 4 b) refl
prefix_from_ip_net-row_of n (inr (h, b)) = rw (h.0, mask_ones-cidr_mask n.bits 16 b) refl

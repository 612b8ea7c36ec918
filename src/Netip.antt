-- ===== src/Netip.antt =====
-- The part of Go's net/netip that the program calls: addresses, prefixes and their bytes.
pub mod Bits
use bitblocker.Base.{
  ℕ, zero, suc, ◌+◌, ◌-◌, ◌*◌, ◌/◌, ◌%◌, ◌^◌, ◌≤◌, ◌<◌, min, String, ◌≡◌, Bool, true, false, ◌&&◌,
  List, [], ◌∷◌, length, drop, All, ltb, leb, ◌==◌, if◌then◌else◌,
}
use Bits.{mask_bytes, value}

-- `netip.Addr`: the zero value, 4 bytes, or 16 bytes with a zone.
pub data Addr : Type 0 where
  zero_addr : Addr
  v4 : List ℕ → Addr
  v6 : List ℕ → String → Addr

-- What the representation of Go ensures: bytes are bytes, and there are 4 or 16 of them.
abbrev pub IsBytes : ℕ → List ℕ → Type 0
IsBytes n bytes = (length bytes ≡ n) × All (λ b. b < 256) bytes

abbrev pub IsAddr : Addr → Type 0
IsAddr zero_addr = Unit
IsAddr (v4 bytes) = IsBytes 4 bytes
IsAddr (v6 bytes zone) = IsBytes 16 bytes

abbrev pub is_valid : Addr → Bool
is_valid zero_addr = false
is_valid _ = true

abbrev pub is4 : Addr → Bool
is4 (v4 bytes) = true
is4 _ = false

-- The number of the block of length n that holds an address of w bits.
abbrev pub block : ℕ → ℕ → List ℕ → ℕ
block w n bytes = value bytes / 2 ^ (w - n)

-- `Addr.Is4In6`: the address lies in `::ffff:0:0/96`.
abbrev pub is_mapped : List ℕ → Bool
is_mapped bytes = block 128 96 bytes == 65535

-- `Addr.Unmap`.
unfoldable pub unmap : Addr → Addr
unmap (v6 bytes zone) = if is_mapped bytes then v4 (drop 12 bytes) else v6 bytes zone
unmap a = a

-- `Addr.As4` and `Addr.As16`, which ignore the zone.
abbrev pub as_bytes : Addr → List ℕ
as_bytes zero_addr = []
as_bytes (v4 bytes) = bytes
as_bytes (v6 bytes zone) = bytes

abbrev pub bit_len : Addr → ℕ
bit_len zero_addr = 0
bit_len (v4 bytes) = 32
bit_len (v6 bytes zone) = 128

-- `netip.Prefix`: its bits are kept plus one, and 0 marks the invalid prefix.
pub record Prefix : Type 0 where
  pub addr : Addr
  pub bits_plus_one : ℕ

without_zone : Addr → Addr
without_zone (v6 bytes zone) = v6 bytes ""
without_zone a = a

-- `netip.PrefixFrom`, at a length that is not negative.
unfoldable pub prefix_from : Addr → ℕ → Prefix
unfolding without_zone
prefix_from a bits = record {
  addr = without_zone a;
  bits_plus_one = if is_valid a && leb bits (bit_len a) then bits + 1 else 0;
}

abbrev pub prefix_valid : Prefix → Bool
prefix_valid p = ltb 0 p.bits_plus_one

-- `Prefix.Bits` of a valid prefix.
abbrev pub prefix_bits : Prefix → ℕ
prefix_bits p = p.bits_plus_one - 1

unfoldable pub mask_addr : ℕ → Addr → Addr
mask_addr bits zero_addr = zero_addr
mask_addr bits (v4 bytes) = v4 (mask_bytes bits bytes)
mask_addr bits (v6 bytes zone) = v6 (mask_bytes bits bytes) ""

-- `Prefix.Masked` of a valid prefix.
unfoldable pub masked : Prefix → Prefix
unfolding mask_addr
masked p = record p { addr = mask_addr (prefix_bits p) p.addr }

-- The longest length of a prefix of the address, plus one; the zero address has no prefix.
abbrev pub bits_limit : Addr → ℕ
bits_limit zero_addr = 0
bits_limit a = bit_len a + 1

abbrev pub IsPrefix : Prefix → Type 0
IsPrefix p = IsAddr p.addr × (p.bits_plus_one ≤ bits_limit p.addr)

unfoldable pub same_block : ℕ → Addr → Addr → Bool
same_block n (v4 a) (v4 b) = block 32 n a == block 32 n b
same_block n (v6 a _) (v6 b _) = block 128 n a == block 128 n b
same_block n _ _ = false

-- What `Prefix.Contains` answers when the zone of the address is left off: the same family, and
-- the same block of the prefix's length.
unfoldable pub covers : Prefix → Addr → Bool
unfolding same_block
covers p ip = prefix_valid p && same_block (prefix_bits p) p.addr ip

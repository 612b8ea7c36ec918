-- ===== src/Blocklist/Trie/Key.antt =====
-- Which root and which path an insertion goes to.
use bitblocker.Base.{
  ℕ, suc, ◌*◌, ◌≤◌, ◌<◌, ◌≡◌, refl, ◌∙◌, inl, inr, Bool, false, Option, some, List, ◌==◌,
  if◌then◌else◌, arith, Bool-cases, length-drop, All-drop,
}
use bitblocker.Netip.{
  Addr, bits_limit, same_block, mask_addr, zero_addr, v4, v6, IsAddr, IsBytes, is_mapped, block,
  unmap, masked, Prefix, prefix_valid, prefix_bits, IsPrefix, covers,
}
use bitblocker.Netip.Bits.{mask_bytes}
use bitblocker.Blocklist.Trie.{Trie, set_root4, set_root6, insert_at, insert_addr, insert}
use bitblocker.Blocklist.Trie.Walk.{agree}
use bitblocker.Blocklist.Trie.Cover.{
  agree-mask_bytes, agree-eq-block, mapped-mask_bytes, block-coarser,
}

pub data Key : Type 0 where
  ignored : Key
  key4 key6 : ℕ → List ℕ → Key

abbrev pub key_addr : ℕ → Addr → Key
key_addr n zero_addr = ignored
key_addr n (v4 a) = key4 n (mask_bytes n a)
key_addr n (v6 a zone) = if is_mapped (mask_bytes n a) then ignored else key6 n (mask_bytes n a)

abbrev pub key : Prefix → Key
key p = if prefix_valid p then key_addr (prefix_bits p) p.addr else ignored

unfoldable pub put : Key → Trie → Option Trie
put ignored t = some t
put (key4 n a) t = set_root4 t (insert_at n a t.root4)
put (key6 n a) t = set_root6 t (insert_at n a t.root6)

insert_addr-key_addr :
    (t : Trie) (n : ℕ) (a : Addr)
    → IsAddr a
    → suc n ≤ bits_limit a
    → insert_addr n (unmap (mask_addr n a)) t ≡ put (key_addr n a) t
unfolding insert_addr put unmap mask_addr
insert_addr-key_addr t n zero_addr h le = absurd (omega arith)
insert_addr-key_addr t n (v4 a) h le = ground arith
insert_addr-key_addr t n (v6 a zone) h le = ground (arith, mapped-mask_bytes n a h (omega arith))

abbrev pub KeyFits : Key → Type 0
KeyFits ignored = Unit
KeyFits (key4 n a) = n ≤ 32
KeyFits (key6 n a) = n ≤ 128

key_addr-KeyFits : (n : ℕ) (a : Addr) → suc n ≤ bits_limit a → KeyFits (key_addr n a)
key_addr-KeyFits n zero_addr h = tt
key_addr-KeyFits n (v4 a) h = omega arith
key_addr-KeyFits n (v6 a zone) h = elim (Bool-cases (is_mapped (mask_bytes n a))) [
  | inl e ↦ rw e tt
  | inr e ↦ rw e (omega arith)
]

pub key-KeyFits : (p : Prefix) → IsPrefix p → KeyFits (key p)
key-KeyFits p h = elim (Bool-cases (prefix_valid p)) [
  | inl ok ↦ rw ok (key_addr-KeyFits (prefix_bits p) p.addr (ground arith))
  | inr bad ↦ rw bad tt
]

-- `Insert` does what its key says.
pub insert-key : (t : Trie) (p : Prefix) → IsPrefix p → insert t p ≡ put (key p) t
unfolding insert put masked
insert-key t p h = elim (Bool-cases (prefix_valid p)) [
  | inl ok ↦ rw ok (insert_addr-key_addr t (prefix_bits p) p.addr h.0 (ground arith))
  | inr bad ↦ rw bad
]

-- A lookup of an unmapped address matches a key if its first bits are those of the key.
abbrev pub matches : Key → Addr → Bool
matches (key4 n a) (v4 b) = agree n 0 a b
matches (key6 n a) (v6 b zone) = agree n 0 a b
matches _ _ = false

-- `Unmap` leaves no embedded IPv4 address.
abbrev pub IsUnmapped : Addr → Type 0
IsUnmapped (v6 a zone) = is_mapped a ≡ false
IsUnmapped _ = Unit

pub IsUnmapped-unmap : (a : Addr) → IsUnmapped (unmap a)
unfolding unmap
IsUnmapped-unmap zero_addr = tt
IsUnmapped-unmap (v4 a) = tt
IsUnmapped-unmap (v6 a zone) = elim (Bool-cases (is_mapped a)) [ inl e ↦ rw e tt | inr e ↦ rw e e ]

pub IsAddr-unmap : (a : Addr) → IsAddr a → IsAddr (unmap a)
unfolding unmap
IsAddr-unmap zero_addr h = tt
IsAddr-unmap (v4 a) h = h
IsAddr-unmap (v6 a zone) h = elim (Bool-cases (is_mapped a)) [
  | inl e ↦ rw e (omega (arith, length-drop {A = ℕ} 12 a), All-drop (λ b. b < 256) 12 a h.1)
  | inr e ↦ rw e h
]

agree-same_block :
    (l n : ℕ) (a b : List ℕ)
    → IsBytes l a
    → IsBytes l b
    → n ≤ 8 * l
    → agree n 0 (mask_bytes n a) b ≡ (block (8 * l) n a == block (8 * l) n b)
agree-same_block l n a b ha hb h =
    agree-mask_bytes n n 0 a b (omega arith) ∙ agree-eq-block l a b ha hb n h

pub same_block-mapped :
    (n : ℕ) (a b : List ℕ)
    → n ≤ 128
    → 96 ≤ n
    → block 128 96 a ≡ 65535
    → is_mapped b ≡ false
    → (block 128 n a == block 128 n b) ≡ false
same_block-mapped n a b h k e f =
    ground (arith, block-coarser 128 96 n a k h, block-coarser 128 96 n b k h)

matches-key_addr :
    (n : ℕ) (a b : Addr)
    → IsAddr a
    → IsAddr b
    → IsUnmapped b
    → suc n ≤ bits_limit a
    → matches (key_addr n a) b ≡ same_block n a b
unfolding same_block
matches-key_addr n zero_addr b ha hb u le = absurd (omega arith)
matches-key_addr n (v4 a) (v4 b) ha hb u le = agree-same_block 4 n a b ha hb (omega arith)
matches-key_addr n (v6 a zone) (v6 b zone') ha hb u le = ground (
  arith,
  mapped-mask_bytes n a ha (omega arith),
  same_block-mapped n a b (omega arith),
  agree-same_block 16 n a b ha hb (omega arith),
)
matches-key_addr n (v6 a zone) _ ha hb u le = ground arith
matches-key_addr n _ _ ha hb u le = refl

pub matches-key :
    (p : Prefix) (b : Addr) → IsPrefix p → IsAddr b → IsUnmapped b → matches (key p) b ≡ covers p b
unfolding covers
matches-key p b hp hb u = elim (Bool-cases (prefix_valid p)) [
  | inl ok ↦ rw ok (matches-key_addr (prefix_bits p) p.addr b hp.0 hb u (ground arith))
  | inr bad ↦ rw bad
]

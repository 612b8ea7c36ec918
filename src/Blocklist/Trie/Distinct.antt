-- ===== src/Blocklist/Trie/Distinct.antt =====
-- `Len` is the number of different prefixes, in terms of the prefixes alone.
use bitblocker.Base.{
  ℕ, suc, ◌+◌, ◌*◌, ◌≤◌, ◌≡◌, refl, sym, ◌∙◌, inl, inr, Bool, true, false, not, ◌&&◌, some, List,
  [], ◌∷◌, All, any, ◌==◌, if◌then◌else◌, arith, Bool-cases, ltb→lt, Option-cases, leb,
}
use bitblocker.Netip.{
  Addr, zero_addr, v4, v6, IsAddr, IsBytes, is_mapped, bits_limit, same_block, block, Prefix,
  prefix_valid, prefix_bits, IsPrefix,
}
use bitblocker.Netip.Bits.{mask_bytes}
use bitblocker.Blocklist.Trie.{Trie, insert, len, new_trie}
use bitblocker.Blocklist.Trie.Walk.{agree}
use bitblocker.Blocklist.Trie.Cover.{
  agree-mask_bytes, agree-eq-block, mapped-mask_bytes, agree_comm, mapped-mask_bytes_of,
}
use bitblocker.Blocklist.Trie.Count.{marked-fresh_node}
use bitblocker.Blocklist.Trie.Lookup.{insert_all}
use bitblocker.Blocklist.Trie.Size.{holds_key, is_stored, len-put, same_key, holds_key-put}
use bitblocker.Blocklist.Trie.Key.{
  Key, ignored, key4, key6, key, key_addr, insert-key, same_block-mapped,
}

-- `::ffff:0:0/96` and the longer prefixes in it are not stored.
abbrev pub is_embedded : ℕ → Addr → Bool
is_embedded n (v6 a zone) = leb 96 n && is_mapped a
is_embedded n _ = false

abbrev pub stored : Prefix → Bool
stored p = prefix_valid p && not (is_embedded (prefix_bits p) p.addr)

-- The same prefix up to host bits.
abbrev pub same_prefix : Prefix → Prefix → Bool
same_prefix p q = p.bits_plus_one == q.bits_plus_one && same_block (prefix_bits p) p.addr q.addr

-- How many of the prefixes are stored and differ from all before them.
unfoldable pub distinct : List Prefix → List Prefix → ℕ
distinct seen [] = 0
distinct seen (p ∷ ps) =
    let rest = distinct (p ∷ seen) ps in
    if stored p && not (any (same_prefix p) seen) then suc rest else rest

is_stored-key_addr :
    (n : ℕ) (a : Addr)
    → IsAddr a
    → suc n ≤ bits_limit a
    → is_stored (key_addr n a) ≡ not (is_embedded n a)
is_stored-key_addr n zero_addr h le = absurd (omega arith)
is_stored-key_addr n (v4 a) h le = refl
is_stored-key_addr n (v6 a zone) h le =
    ground (arith, mapped-mask_bytes n a h (omega arith), mapped-mask_bytes_of n a h)

pub is_stored-key : (p : Prefix) → IsPrefix p → is_stored (key p) ≡ stored p
is_stored-key p h = elim (Bool-cases (prefix_valid p)) [
  | inl ok ↦ rw ok (is_stored-key_addr (prefix_bits p) p.addr h.0 (ground arith))
  | inr bad ↦ rw bad
]

agree-masks :
    (l n : ℕ) (a b : List ℕ)
    → IsBytes l a
    → IsBytes l b
    → n ≤ 8 * l
    → agree n 0 (mask_bytes n a) (mask_bytes n b) ≡ (block (8 * l) n b == block (8 * l) n a)
agree-masks l n a b ha hb h =
    agree-mask_bytes n n 0 a (mask_bytes n b) (omega arith)
    ∙ agree_comm n 0 a (mask_bytes n b)
    ∙ agree-mask_bytes n n 0 b a (omega arith)
    ∙ agree-eq-block l b a hb ha n h

same_key-key_addr6 :
    (n m : ℕ) (a b : List ℕ)
    → IsBytes 16 a
    → IsBytes 16 b
    → n ≤ 128
    → m ≤ 128
    → leb 96 m && is_mapped b ≡ false
    → same_key (key_addr n (v6 a "")) (key_addr m (v6 b ""))
      ≡ (m == n && (block 128 m b == block 128 m a))
same_key-key_addr6 n m a b ha hb hn hm e = ground (
  arith,
  mapped-mask_bytes n a ha hn,
  mapped-mask_bytes m b hb hm,
  same_block-mapped n a b hn,
  agree-masks 16 n a b ha hb,
)

same_key-key_addr :
    (n m : ℕ) (a b : Addr)
    → IsAddr a
    → IsAddr b
    → suc n ≤ bits_limit a
    → suc m ≤ bits_limit b
    → is_embedded m b ≡ false
    → same_key (key_addr n a) (key_addr m b) ≡ (m == n && same_block m b a)
unfolding same_block
same_key-key_addr n m zero_addr b ha hb hn hm e = absurd (omega arith)
same_key-key_addr n m (v4 a) zero_addr ha hb hn hm e = absurd (omega arith)
same_key-key_addr n m (v4 a) (v4 b) ha hb hn hm e = ground (arith, agree-masks 4 n a b ha hb)
same_key-key_addr n m (v4 a) (v6 b zone) ha hb hn hm e = ground arith
same_key-key_addr n m (v6 a zone) zero_addr ha hb hn hm e = absurd (omega arith)
same_key-key_addr n m (v6 a zone) (v4 b) ha hb hn hm e = ground arith
same_key-key_addr n m (v6 a zone) (v6 b zone') ha hb hn hm e =
    same_key-key_addr6 n m a b ha hb (omega arith) (omega arith) e

same_key-key :
    (p q : Prefix)
    → IsPrefix p
    → IsPrefix q
    → stored q ≡ true
    → same_key (key p) (key q) ≡ same_prefix q p
same_key-key p q hp hq e = elim (Bool-cases (prefix_valid p)) [
  | inl ok ↦
      let len_p : suc (prefix_bits p) ≤ bits_limit p.addr =
        omega (arith, ltb→lt 0 p.bits_plus_one ok, hp.1) in
      let ok_q : prefix_valid q ≡ true = ground arith in
      let len_q : suc (prefix_bits q) ≤ bits_limit q.addr =
        omega (arith, ltb→lt 0 q.bits_plus_one ok_q, hq.1) in
      rw (ok, ok_q)
        (same_key-key_addr (prefix_bits p) (prefix_bits q) p.addr q.addr hp.0 hq.0 len_p len_q
            (ground arith)
          ∙ ground arith)
  | inr bad ↦ rw bad (ground arith)
]

-- The trie marks the stored prefixes among `seen`, and no others.
abbrev pub Holds : List Prefix → Trie → Type 0
Holds seen t =
    (q : Prefix) → IsPrefix q → stored q ≡ true → holds_key (key q) t ≡ any (same_prefix q) seen

pub Holds-insert :
    (seen : List Prefix) (t u : Trie) (p : Prefix)
    → Holds seen t
    → IsPrefix p
    → insert t p ≡ some u
    → Holds (p ∷ seen) u
Holds-insert seen t u p h hp done q hq sq =
    holds_key-put (key p) (key q) t u (sym (insert-key t p hp) ∙ done)
    ∙ rw (same_key-key p q hp hq sq, h q hq sq)

-- `Len` counts each stored prefix once, however often it comes and with whatever host bits.
pub len-insert_all :
    (seen : List Prefix) (t t' : Trie) (ps : List Prefix)
    → Holds seen t
    → All IsPrefix ps
    → insert_all t ps ≡ some t'
    → len t' ≡ len t + distinct seen ps
unfolding insert_all distinct
len-insert_all seen t t' [] h hps e = ground arith
len-insert_all seen t t' (p ∷ ps) h hps e = elim (Option-cases (insert t p)) [
  | inl fault ↦ cc
  | inr (u, done) ↦ ground (
    arith,
    len-put (key p) t u (sym (insert-key t p hps.0) ∙ done),
    is_stored-key p hps.0,
    h p hps.0,
    len-insert_all (p ∷ seen) u t' ps (Holds-insert seen t u p h hps.0 done) hps.1
        (rw (done, insert_all) at e),
  )
]

pub Holds-new_trie : Holds [] new_trie
unfolding holds_key new_trie
Holds-new_trie q hq sq = holds_new (key q)
  where
    holds_new : (k : Key) → holds_key k new_trie ≡ false
    holds_new ignored = refl
    holds_new (key4 n a) = marked-fresh_node n 0 a
    holds_new (key6 n a) = marked-fresh_node n 0 a

pub len-new_trie : len new_trie ≡ 0
unfolding len new_trie
len-new_trie = refl

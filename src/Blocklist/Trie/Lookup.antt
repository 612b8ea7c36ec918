-- ===== src/Blocklist/Trie/Lookup.antt =====
-- `Contains` after `Insert`: the trie decides membership in a set of prefixes.
use bitblocker.Base.{
  ℕ, zero, suc, inl, inr, ◌≡◌, refl, sym, ◌∙◌, true, false, ◌||◌, Option, none, some, List, [], ◌∷◌,
  All, any, arith, Bool-cases, Option-cases,
}
use bitblocker.Netip.{
  Addr, zero_addr, v4, v6, IsAddr, is_valid, as_bytes, unmap, Prefix, IsPrefix, covers,
}
use bitblocker.Blocklist.Trie.{
  Trie, nil, node, set_root4, set_root6, insert_at, insert, contains_path, contains_addr, contains,
  new_trie,
}
use bitblocker.Blocklist.Trie.Walk.{contains_path-insert_path}
use bitblocker.Blocklist.Trie.Key.{
  Key, KeyFits, key-KeyFits, ignored, key4, key6, key, put, matches, insert-key, matches-key,
  IsAddr-unmap, IsUnmapped-unmap,
}

contains_addr-put :
    (k : Key) (t t' : Trie) (b : Addr)
    → KeyFits k
    → is_valid b ≡ true
    → put k t ≡ some t'
    → contains_addr b t' ≡ (matches k b || contains_addr b t)
unfolding put insert_at set_root4 set_root6
contains_addr-put ignored t t' b h v e = ground arith
contains_addr-put (key4 n a) t t' (v4 b) h v e =
    ground (arith, contains_path-insert_path n 32 0 a b t.root4)
contains_addr-put (key4 n a) t t' zero_addr h v e = absurd (ground arith)
contains_addr-put (key4 n a) t t' (v6 b zone) h v e = ground arith
contains_addr-put (key6 n a) t t' (v6 b zone) h v e =
    ground (arith, contains_path-insert_path n 128 0 a b t.root6)
contains_addr-put (key6 n a) t t' zero_addr h v e = absurd (ground arith)
contains_addr-put (key6 n a) t t' (v4 b) h v e = ground arith

is_valid-unmap : (ip : Addr) → is_valid (unmap ip) ≡ is_valid ip
unfolding unmap
is_valid-unmap zero_addr = refl
is_valid-unmap (v4 a) = refl
is_valid-unmap (v6 a zone) = ground arith

covers-unmap_invalid : (p : Prefix) (ip : Addr) → is_valid ip ≡ false → covers p (unmap ip) ≡ false
unfolding unmap covers
covers-unmap_invalid p zero_addr h = ground arith
covers-unmap_invalid p (v4 a) h = cc
covers-unmap_invalid p (v6 a zone) h = cc

-- The refinement of one insertion.
pub contains-insert :
    (t t' : Trie) (p : Prefix) (ip : Addr)
    → IsPrefix p
    → IsAddr ip
    → insert t p ≡ some t'
    → contains t' ip ≡ (covers p (unmap ip) || contains t ip)
unfolding contains
contains-insert t t' p ip hp hip e = elim (Bool-cases (is_valid ip)) [
  | inl ok ↦
      rw (ok, ← matches-key p (unmap ip) hp (IsAddr-unmap ip hip) (IsUnmapped-unmap ip))
        (contains_addr-put (key p) t t' (unmap ip) (key-KeyFits p hp) (is_valid-unmap ip ∙ ok)
          (sym (insert-key t p hp) ∙ e))
  | inr bad ↦ rw (bad, covers-unmap_invalid p ip bad)
]

unfoldable pub insert_all : Trie → List Prefix → Option Trie
insert_all t [] = some t
insert_all t (p ∷ ps) = elim (insert t p) [ none ↦ none | some t' ↦ insert_all t' ps ]

pub contains-insert_all :
    (t t' : Trie) (ps : List Prefix) (ip : Addr)
    → All IsPrefix ps
    → IsAddr ip
    → insert_all t ps ≡ some t'
    → contains t' ip ≡ (any (λ p. covers p (unmap ip)) ps || contains t ip)
unfolding insert_all
contains-insert_all t t' [] ip hps hip e = ground arith
contains-insert_all t t' (p ∷ ps) ip hps hip e = elim (Option-cases (insert t p)) [
  | inl fault ↦ cc
  | inr (u, done) ↦ ground (
    arith,
    contains-insert t u p ip hps.0 hip done,
    contains-insert_all u t' ps ip hps.1 hip (rw (done, insert_all) at e),
  )
]

contains_path-nil : (k i : ℕ) (a : List ℕ) → contains_path k i a nil ≡ false
unfolding contains_path
contains_path-nil k i a = refl

contains_path-fresh_node : (k i : ℕ) (a : List ℕ) → contains_path k i a (node false nil nil) ≡ false
unfolding contains_path
contains_path-fresh_node zero i a = refl
contains_path-fresh_node (suc k) i a = ground (arith, contains_path-nil k (suc i) a)

pub contains-new_trie : (ip : Addr) → contains new_trie ip ≡ false
unfolding contains new_trie
contains-new_trie ip = ground (
  arith,
  contains_path-fresh_node 32 0 (as_bytes (unmap ip)),
  contains_path-fresh_node 128 0 (as_bytes (unmap ip)),
)

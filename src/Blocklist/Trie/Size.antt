-- ===== src/Blocklist/Trie/Size.antt =====
-- `Len` counts the distinct prefixes, and `Insert` never dereferences nil.
use bitblocker.Base.{
  ℕ, zero, suc, ◌+◌, ◌≡◌, refl, Bool, true, false, not, ◌&&◌, ◌||◌, some, List, [], ◌∷◌, All, ◌==◌,
  arith,
}
use bitblocker.Netip.{Prefix, IsPrefix}
use bitblocker.Blocklist.Trie.{
  Node, Trie, nil, node, bump, set_root4, set_root6, insert_path, insert_at, insert, len, new_trie,
}
use bitblocker.Blocklist.Trie.Walk.{agree}
use bitblocker.Blocklist.Trie.Count.{
  terminals, marked, fresh-marked, terminals-insert_path, marked-insert_path,
}
use bitblocker.Blocklist.Trie.Lookup.{insert_all}
use bitblocker.Blocklist.Trie.Key.{Key, ignored, key4, key6, key, put, insert-key}

abbrev pub is_node : Node → Bool
is_node nil = false
is_node (node t l r) = true

-- Both roots are there, and the count is the number of terminal marks.
pub record IsWf (t : Trie) : Type 0 where
  pub rooted4 : is_node t.root4 ≡ true
  pub rooted6 : is_node t.root6 ≡ true
  pub counted : t.count ≡ terminals t.root4 + terminals t.root6

pub IsWf-new_trie : IsWf new_trie
unfolding new_trie terminals
IsWf-new_trie = record { rooted4 = refl; rooted6 = refl; counted = refl }

pub is_node-insert_path : (n i : ℕ) (a : List ℕ) (r : Node) → is_node (insert_path n i a r).0 ≡ true
unfolding insert_path
is_node-insert_path zero i a nil = refl
is_node-insert_path zero i a (node t l r) = refl
is_node-insert_path (suc n) i a nil = ground arith
is_node-insert_path (suc n) i a (node t l r) = ground arith

insert_at_total :
    (n : ℕ) (a : List ℕ) (r : Node)
    → is_node r ≡ true
    → insert_at n a r ≡ some (insert_path n 0 a r)
unfolding insert_at
insert_at_total n a nil h = cc
insert_at_total n a (node t l r) h = refl

unfoldable pub holds_key : Key → Trie → Bool
holds_key ignored t = false
holds_key (key4 n a) t = marked n 0 a t.root4
holds_key (key6 n a) t = marked n 0 a t.root6

abbrev pub is_stored : Key → Bool
is_stored ignored = false
is_stored _ = true

module _ (t : Trie) (w : IsWf t) (n : ℕ) (a : List ℕ) where
  put4_total : (t' : Trie) × (put (key4 n a) t ≡ some t') × IsWf t'
  unfolding put set_root4
  put4_total = (
    record t {
      root4 = (insert_path n 0 a t.root4).0;
      count = bump (insert_path n 0 a t.root4).1 t.count;
    },
    rw (insert_at_total n a t.root4 w.rooted4),
    record {
      rooted4 = is_node-insert_path n 0 a t.root4;
      rooted6 = w.rooted6;
      counted = ground (arith, terminals-insert_path n 0 a t.root4, w.counted);
    },
  )

  put6_total : (t' : Trie) × (put (key6 n a) t ≡ some t') × IsWf t'
  unfolding put set_root6
  put6_total = (
    record t {
      root6 = (insert_path n 0 a t.root6).0;
      count = bump (insert_path n 0 a t.root6).1 t.count;
    },
    rw (insert_at_total n a t.root6 w.rooted6),
    record {
      rooted4 = w.rooted4;
      rooted6 = is_node-insert_path n 0 a t.root6;
      counted = ground (arith, terminals-insert_path n 0 a t.root6, w.counted);
    },
  )

put_total : (k : Key) (t : Trie) → IsWf t → (t' : Trie) × (put k t ≡ some t') × IsWf t'
unfolding put
put_total ignored t w = (t, refl, w)
put_total (key4 n a) t w = put4_total t w n a
put_total (key6 n a) t w = put6_total t w n a

-- On a trie with both roots, whose count is the number of its marks, the insertion of any prefix,
-- valid or not, meets no nil root and leaves such a trie.
pub insert_total :
    (t : Trie) (p : Prefix) → IsPrefix p → IsWf t → (t' : Trie) × (insert t p ≡ some t') × IsWf t'
insert_total t p h w = rw (insert-key t p h) (put_total (key p) t w)

pub insert_all_total :
    (t : Trie) (ps : List Prefix)
    → All IsPrefix ps
    → IsWf t
    → (t' : Trie) × (insert_all t ps ≡ some t') × IsWf t'
unfolding insert_all
insert_all_total t [] h w = (t, refl, w)
insert_all_total t (p ∷ ps) h w =
    let (u, done, wu) = insert_total t p h.0 w in
    let (v, rest, wv) = insert_all_total u ps h.1 wu in (v, rw (done, insert_all) rest, wv)

-- An insertion adds one to the count if its path was not marked.
pub len-put :
    (k : Key) (t t' : Trie)
    → put k t ≡ some t'
    → len t' ≡ bump (is_stored k && not (holds_key k t)) (len t)
unfolding len put set_root4 set_root6 insert_at holds_key
len-put ignored t t' e = ground arith
len-put (key4 n a) t t' e = ground (arith, fresh-marked n 0 a t.root4)
len-put (key6 n a) t t' e = ground (arith, fresh-marked n 0 a t.root6)

abbrev pub same_key : Key → Key → Bool
same_key (key4 n a) (key4 m b) = n == m && agree n 0 a b
same_key (key6 n a) (key6 m b) = n == m && agree n 0 a b
same_key _ _ = false

pub holds_key-put :
    (k j : Key) (t t' : Trie) → put k t ≡ some t' → holds_key j t' ≡ (same_key k j || holds_key j t)
unfolding put set_root4 set_root6 insert_at holds_key
holds_key-put ignored j t t' e = ground arith
holds_key-put (key4 n a) (key4 m b) t t' e = ground (arith, marked-insert_path n m 0 a b t.root4)
holds_key-put (key6 n a) (key6 m b) t t' e = ground (arith, marked-insert_path n m 0 a b t.root6)
holds_key-put (key4 n a) _ t t' e = ground arith
holds_key-put (key6 n a) _ t t' e = ground arith

-- ===== src/Blocklist/Trie/Order.antt =====
-- The order and the repetition of insertions leave no trace in the tree.
use bitblocker.Base.{ℕ, zero, suc, ◌≡◌, refl, sym, subst, ◌∙◌, false, some, List, arith}
use bitblocker.Netip.{Prefix, IsPrefix}
use bitblocker.Blocklist.Trie.{
  Node, nil, node, Trie, insert, insert_path, set_root4, set_root6, insert_at,
}
use bitblocker.Blocklist.Trie.Walk.{bit_at-lt}
use bitblocker.Blocklist.Trie.Size.{IsWf, insert_total, is_node-insert_path}
use bitblocker.Blocklist.Trie.Key.{Key, ignored, key4, key6, key, put, insert-key}

insert_path_twice :
    (k i : ℕ) (a : List ℕ) (n : Node)
    → insert_path k i a (insert_path k i a n).0 ≡ ((insert_path k i a n).0, false)
unfolding insert_path
insert_path_twice zero i a nil = refl
insert_path_twice zero i a (node t l r) = refl
insert_path_twice (suc k) i a nil = ground (arith, insert_path_twice k (suc i) a nil)
insert_path_twice (suc k) i a (node t l r) =
    ground (arith, insert_path_twice k (suc i) a l, insert_path_twice k (suc i) a r)

insert_path_comm :
    (k m i : ℕ) (a b : List ℕ) (n : Node)
    → (insert_path k i a (insert_path m i b n).0).0 ≡ (insert_path m i b (insert_path k i a n).0).0
unfolding insert_path
insert_path_comm zero zero i a b nil = refl
insert_path_comm zero zero i a b (node t l r) = refl
insert_path_comm zero (suc m) i a b nil = ground arith
insert_path_comm zero (suc m) i a b (node t l r) = ground arith
insert_path_comm (suc k) zero i a b nil = ground arith
insert_path_comm (suc k) zero i a b (node t l r) = ground arith
insert_path_comm (suc k) (suc m) i a b nil =
    ground (arith, insert_path_comm k m (suc i) a b nil, bit_at-lt a i, bit_at-lt b i)
insert_path_comm (suc k) (suc m) i a b (node t l r) = ground (
  arith,
  insert_path_comm k m (suc i) a b l,
  insert_path_comm k m (suc i) a b r,
  bit_at-lt a i,
  bit_at-lt b i,
)

abbrev root4_after : Key → Node → Node
root4_after (key4 n a) r = (insert_path n 0 a r).0
root4_after _ r = r

abbrev root6_after : Key → Node → Node
root6_after (key6 n a) r = (insert_path n 0 a r).0
root6_after _ r = r

roots-put :
    (k : Key) (t t' : Trie)
    → put k t ≡ some t'
    → (t'.root4 ≡ root4_after k t.root4) × (t'.root6 ≡ root6_after k t.root6)
unfolding put set_root4 set_root6 insert_at
roots-put ignored t t' e = ground arith
roots-put (key4 n a) t t' e = ground arith
roots-put (key6 n a) t t' e = ground arith

roots_comm :
    (k j : Key) (r4 r6 : Node)
    → (root4_after k (root4_after j r4) ≡ root4_after j (root4_after k r4))
      × (root6_after k (root6_after j r6) ≡ root6_after j (root6_after k r6))
roots_comm (key4 n a) (key4 m b) r4 r6 = (insert_path_comm n m 0 a b r4, refl)
roots_comm (key6 n a) (key6 m b) r4 r6 = (refl, insert_path_comm n m 0 a b r6)
roots_comm (key4 n a) _ r4 r6 = (refl, refl)
roots_comm (key6 n a) _ r4 r6 = (refl, refl)
roots_comm ignored _ r4 r6 = (refl, refl)

put_twice : (k : Key) (t u : Trie) → put k t ≡ some u → put k u ≡ some u
unfolding put set_root4 set_root6 insert_at
put_twice ignored t u e = ground arith
put_twice (key4 n a) t u e =
    ground (arith, insert_path_twice n 0 a t.root4, is_node-insert_path n 0 a t.root4)
put_twice (key6 n a) t u e =
    ground (arith, insert_path_twice n 0 a t.root6, is_node-insert_path n 0 a t.root6)

-- Inserting a prefix a second time changes nothing, the count included.
pub insert_twice :
    (t u : Trie) (p : Prefix) → IsPrefix p → insert t p ≡ some u → insert u p ≡ some u
insert_twice t u p h e = insert-key u p h ∙ put_twice (key p) t u (sym (insert-key t p h) ∙ e)

pub IsWf-insert : (t u : Trie) (p : Prefix) → IsPrefix p → IsWf t → insert t p ≡ some u → IsWf u
IsWf-insert t u p h w e =
    let (u', done, w') = insert_total t p h w in let same : u' ≡ u = cc in subst IsWf same w'

-- On a well-formed trie two prefixes may be inserted in either order: the trie is the same, the
-- count included.
pub insert_comm :
    (t u v u' v' : Trie) (p q : Prefix)
    → IsWf t
    → IsPrefix p
    → IsPrefix q
    → insert t p ≡ some u
    → insert u q ≡ some v
    → insert t q ≡ some u'
    → insert u' p ≡ some v'
    → v ≡ v'
insert_comm t u v u' v' p q w hp hq tp uq tq up = ground (
  arith,
  roots-put (key p) t u (sym (insert-key t p hp) ∙ tp),
  roots-put (key q) u v (sym (insert-key u q hq) ∙ uq),
  roots-put (key q) t u' (sym (insert-key t q hq) ∙ tq),
  roots-put (key p) u' v' (sym (insert-key u' p hp) ∙ up),
  roots_comm (key p) (key q) t.root4 t.root6,
  IsWf-insert u v q hq (IsWf-insert t u p hp w tp) uq,
  IsWf-insert u' v' p hp (IsWf-insert t u' q hq w tq) up,
)

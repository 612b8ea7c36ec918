-- ===== src/Blocklist/Canonical.antt =====
-- internal/blocklist/trie.go: the trie and the set of the stored prefixes determine each other.
use bitblocker.Base.{
  ℕ, zero, suc, ◌≡◌, ◌↔◌, refl, sym, ap, subst, ◌∙◌, Bool, true, false, ◌||◌, some, List, [], ◌∷◌,
  All, any, arith, Bool-cases, Option-cases, inl, inr, ◌≤◌, ltb→lt,
}
use bitblocker.Netip.{
  Addr, zero_addr, v4, v6, bits_limit, same_block, Prefix, prefix_valid, prefix_bits, IsPrefix,
}
use bitblocker.Blocklist.Trie.{
  Node, nil, node, Trie, new_trie, insert, insert_path, set_root4, set_root6, insert_at,
}
use bitblocker.Blocklist.Trie.Count.{marked}
use bitblocker.Blocklist.Trie.Key.{Key, ignored, key4, key6, key, put, insert-key}
use bitblocker.Blocklist.Trie.Lookup.{insert_all}
use bitblocker.Blocklist.Trie.Size.{IsWf, IsWf-new_trie, insert_total, holds_key, is_stored}
use bitblocker.Blocklist.Trie.Distinct.{
  stored, same_prefix, Holds, Holds-insert, Holds-new_trie, is_stored-key,
}
use bitblocker.Blocklist.Trie.Order.{insert_comm, IsWf-insert}

insert_path-marked :
    (k i : ℕ) (a : List ℕ) (n : Node) → marked k i a n ≡ true → insert_path k i a n ≡ (n, false)
unfolding insert_path marked
insert_path-marked zero i a nil h = ground arith
insert_path-marked zero i a (node t l r) h = ground arith
insert_path-marked (suc k) i a nil h = ground arith
insert_path-marked (suc k) i a (node t l r) h =
    ground (arith, insert_path-marked k (suc i) a l, insert_path-marked k (suc i) a r)

insert_at-marked :
    (n : ℕ) (a : List ℕ) (r : Node) → marked n 0 a r ≡ true → insert_at n a r ≡ some (r, false)
unfolding insert_at marked
insert_at-marked n a nil h = ground arith
insert_at-marked n a (node t l r) h = ground (arith, insert_path-marked n 0 a (node t l r) h)

put-held : (k : Key) (t : Trie) → holds_key k t ≡ true → put k t ≡ some t
unfolding put set_root4 set_root6 holds_key
put-held ignored t h = ground arith
put-held (key4 n a) t h = rw (insert_at-marked n a t.root4 h) refl
put-held (key6 n a) t h = rw (insert_at-marked n a t.root6 h) refl

put-unstored : (k : Key) (t : Trie) → is_stored k ≡ false → put k t ≡ some t
unfolding put
put-unstored ignored t h = refl
put-unstored (key4 n a) t h = ground arith
put-unstored (key6 n a) t h = ground arith

-- A prefix that is not stored, or that the trie holds, adds nothing.
absorbs :
    (t : Trie) (p : Prefix)
    → IsPrefix p
    → (stored p ≡ true → holds_key (key p) t ≡ true)
    → insert t p ≡ some t
absorbs t p hp h = insert-key t p hp ∙ elim (Bool-cases (stored p)) [
  | inl s ↦ put-held (key p) t (h s)
  | inr s ↦ put-unstored (key p) t (is_stored-key p hp ∙ s)
]

-- A list of such prefixes adds nothing.
abbrev Within : List Prefix → Trie → Type 0
Within ps t =
    (p : Prefix)
    → IsPrefix p
    → stored p ≡ true
    → any (same_prefix p) ps ≡ true
    → holds_key (key p) t ≡ true

same_block_refl : (n : ℕ) (a : Addr) → 1 ≤ bits_limit a → same_block n a a ≡ true
unfolding same_block
same_block_refl n zero_addr h = absurd (omega arith)
same_block_refl n (v4 a) h = ground arith
same_block_refl n (v6 a zone) h = ground arith

same_prefix_refl : (p : Prefix) → IsPrefix p → stored p ≡ true → same_prefix p p ≡ true
same_prefix_refl p hp s =
    let valid : prefix_valid p ≡ true = ground arith in
    let long : 1 ≤ bits_limit p.addr = omega (arith, ltb→lt 0 p.bits_plus_one valid, hp.1) in
    ground (arith, same_block_refl (prefix_bits p) p.addr long)

absorb_list :
    (t : Trie) (ps : List Prefix) → All IsPrefix ps → Within ps t → insert_all t ps ≡ some t
unfolding insert_all
absorb_list t [] hp h = refl
absorb_list t (p ∷ ps) hp h =
    let one : insert t p ≡ some t =
      absorbs t p hp.0 (λ s. h p hp.0 s (ground (arith, same_prefix_refl p hp.0 s))) in
    rw (one, insert_all) (absorb_list t ps hp.1 (λ q hq s m. h q hq s (ground (arith, m))))

-- A prefix goes past a list.
insert-insert_all :
    (t u v : Trie) (p : Prefix) (qs : List Prefix)
    → IsWf t
    → IsPrefix p
    → All IsPrefix qs
    → insert t p ≡ some u
    → insert_all t qs ≡ some v
    → (w : Trie) × (insert_all u qs ≡ some w) × (insert v p ≡ some w)
unfolding insert_all
insert-insert_all t u v p [] w hp hq e f =
    (u, refl, subst (λ x. insert x p ≡ some u) (ground arith) e)
insert-insert_all t u v p (q ∷ qs) w hp hq e f =
    let wu = IsWf-insert t u p hp w e in
    let (t1, d1, w1) = insert_total t q hq.0 w in
    let (u1, e1, wu1) = insert_total u q hq.0 wu in
    let (x, g, wx) = insert_total t1 p hp w1 in
    let same = insert_comm t u u1 t1 x p q w hp hq.0 e e1 d1 g in
    let (z, all, last) = insert-insert_all t1 x v p qs w1 hp hq.1 g (rw (d1, insert_all) at f) in
    (z, rw (e1, same, insert_all) all, last)

-- Two lists may be inserted in either order.
insert_all_comm :
    (t u v : Trie) (ps qs : List Prefix)
    → IsWf t
    → All IsPrefix ps
    → All IsPrefix qs
    → insert_all t ps ≡ some u
    → insert_all t qs ≡ some v
    → (w : Trie) × (insert_all u qs ≡ some w) × (insert_all v ps ≡ some w)
unfolding insert_all
insert_all_comm t u v [] qs w hp hq e f =
    (v, subst (λ x. insert_all x qs ≡ some v) (ground arith) f, refl)
insert_all_comm t u v (p ∷ ps) qs w hp hq e f =
    let (t1, d1, w1) = insert_total t p hp.0 w in
    let (x, g, step) = insert-insert_all t t1 v p qs w hp.0 hq d1 f in
    let (z, left, right) = insert_all_comm t1 u x ps qs w1 hp.1 hq (rw (d1, insert_all) at e) g in
    (z, left, rw (step, insert_all) right)

-- What a trie holds after a list of insertions.
Holds-insert_all :
    (seen : List Prefix) (t u : Trie) (ps : List Prefix)
    → Holds seen t
    → All IsPrefix ps
    → insert_all t ps ≡ some u
    → (q : Prefix) → IsPrefix q
    → stored q ≡ true
    → holds_key (key q) u ≡ (any (same_prefix q) ps || any (same_prefix q) seen)
unfolding insert_all
Holds-insert_all seen t u [] h hp e q hq s = ap (holds_key (key q)) (ground arith) ∙ h q hq s
Holds-insert_all seen t u (p ∷ ps) h hp e q hq s =
    let (t1, d1) = elim (Option-cases (insert t p)) as (λ _. (x : Trie) × (insert t p ≡ some x)) [
      | inl n ↦ absurd (ground arith)
      | inr x ↦ x
    ] in
    Holds-insert_all (p ∷ seen) t1 u ps (Holds-insert seen t t1 p h hp.0 d1) hp.1
      (rw (d1, insert_all) at e) q hq s
    ∙ ground arith

holds_listed :
    (t : Trie) (ps : List Prefix)
    → All IsPrefix ps
    → insert_all new_trie ps ≡ some t
    → (q : Prefix) → IsPrefix q
    → stored q ≡ true
    → holds_key (key q) t ≡ any (same_prefix q) ps
holds_listed t ps hp e q hq s =
    Holds-insert_all [] new_trie t ps Holds-new_trie hp e q hq s ∙ or_false (any (same_prefix q) ps)
  where
    or_false : (b : Bool) → (b || false) ≡ b
    or_false b = ground arith

-- The same prefixes are stored of two lists, up to host bits.
abbrev pub StoreSame : List Prefix → List Prefix → Type 0
StoreSame ps qs =
    (p : Prefix) → IsPrefix p → stored p ≡ true → any (same_prefix p) ps ≡ any (same_prefix p) qs

-- Two lists of prefixes give the same trie, down to every node and the count, exactly when the same
-- prefixes are stored of both, up to host bits; the order and the repetitions do not matter.
pub insert_all-StoreSame :
    (t u : Trie) (ps qs : List Prefix)
    → All IsPrefix ps
    → All IsPrefix qs
    → insert_all new_trie ps ≡ some t
    → insert_all new_trie qs ≡ some u
    → (t ≡ u) ↔ StoreSame ps qs
insert_all-StoreSame t u ps qs hp hq e f = (
  λ same p h s.
      sym (holds_listed t ps hp e p h s)
      ∙ ap (holds_key (key p)) same
      ∙ holds_listed u qs hq f p h s,
  λ same.
      let (w, left, right) = insert_all_comm new_trie t u ps qs IsWf-new_trie hp hq e f in
      let stays_t =
        absorb_list t qs hq (λ p h s m. holds_listed t ps hp e p h s ∙ same p h s ∙ m) in
      let stays_u =
        absorb_list u ps hp (λ p h s m. holds_listed u qs hq f p h s ∙ sym (same p h s) ∙ m) in
      ground arith,
)

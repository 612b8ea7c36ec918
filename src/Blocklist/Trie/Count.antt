-- ===== src/Blocklist/Trie/Count.antt =====
-- The terminal marks that `Insert` writes, and their number.
use bitblocker.Base.{
  ℕ, zero, suc, ◌+◌, ◌≡◌, refl, Bool, false, not, ◌&&◌, ◌||◌, List, ◌==◌, if◌then◌else◌, arith,
}
use bitblocker.Blocklist.Trie.{Node, nil, node, bit_at, bump, insert_path}
use bitblocker.Blocklist.Trie.Walk.{agree, bit_at-lt}

unfoldable pub terminals : Node → ℕ
terminals nil = 0
terminals (node t l r) = (if t then 1 else 0) + (terminals l + terminals r)

-- The node at the end of a path of k bits is there and is marked.
unfoldable pub marked : ℕ → ℕ → List ℕ → Node → Bool
marked k i a nil = false
marked zero i a (node t l r) = t
marked (suc k) i a (node t l r) = marked k (suc i) a (if bit_at a i == 0 then l else r)

marked-nil : (k i : ℕ) (a : List ℕ) → marked k i a nil ≡ false
unfolding marked
marked-nil k i a = refl

pub fresh-marked :
    (k i : ℕ) (a : List ℕ) (n : Node) → (insert_path k i a n).1 ≡ not (marked k i a n)
unfolding insert_path marked
fresh-marked zero i a nil = refl
fresh-marked zero i a (node t l r) = refl
fresh-marked (suc k) i a nil = ground (arith, fresh-marked k (suc i) a nil, marked-nil k (suc i) a)
fresh-marked (suc k) i a (node t l r) = fresh-marked k (suc i) a (if bit_at a i == 0 then l else r)

-- An insertion adds one mark if it was new and none if it was there.
pub terminals-insert_path :
    (k i : ℕ) (a : List ℕ) (n : Node)
    → terminals (insert_path k i a n).0 ≡ bump (insert_path k i a n).1 (terminals n)
unfolding insert_path terminals
terminals-insert_path zero i a nil = refl
terminals-insert_path zero i a (node t l r) = ground arith
terminals-insert_path (suc k) i a nil = ground (arith, terminals-insert_path k (suc i) a nil)
terminals-insert_path (suc k) i a (node t l r) =
    ground (arith, terminals-insert_path k (suc i) a l, terminals-insert_path k (suc i) a r)

-- After an insertion a path is marked if it is the inserted one, or was before.
pub marked-insert_path :
    (k j i : ℕ) (a b : List ℕ) (n : Node)
    → marked j i b (insert_path k i a n).0 ≡ ((k == j && agree k i a b) || marked j i b n)
unfolding insert_path marked agree
marked-insert_path zero zero i a b nil = refl
marked-insert_path zero zero i a b (node t l r) = refl
marked-insert_path zero (suc j) i a b nil = ground (arith, marked-nil j (suc i) b)
marked-insert_path zero (suc j) i a b (node t l r) = ground arith
marked-insert_path (suc k) zero i a b nil = ground arith
marked-insert_path (suc k) zero i a b (node t l r) = ground arith
marked-insert_path (suc k) (suc j) i a b nil = ground (
  arith,
  marked-insert_path k j (suc i) a b nil,
  marked-nil j (suc i) b,
  bit_at-lt a i,
  bit_at-lt b i,
)
marked-insert_path (suc k) (suc j) i a b (node t l r) = ground (
  arith,
  marked-insert_path k j (suc i) a b l,
  marked-insert_path k j (suc i) a b r,
  bit_at-lt a i,
  bit_at-lt b i,
)

pub marked-fresh_node : (k i : ℕ) (a : List ℕ) → marked k i a (node false nil nil) ≡ false
unfolding marked
marked-fresh_node zero i a = refl
marked-fresh_node (suc k) i a = ground (arith, marked-nil k (suc i) a)

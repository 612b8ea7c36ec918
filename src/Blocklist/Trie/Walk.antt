-- ===== src/Blocklist/Trie/Walk.antt =====
-- The loops of `Insert` and `Contains` over one root.
use bitblocker.Base.{ℕ, zero, suc, ◌≤◌, ◌≡◌, refl, Bool, true, ◌&&◌, ◌||◌, List, ◌==◌, arith}
use bitblocker.Blocklist.Trie.{Node, nil, node, bit_at, insert_path, contains_path}

-- Two byte sequences agree on k bits from bit i.
unfoldable pub agree : ℕ → ℕ → List ℕ → List ℕ → Bool
agree zero i a b = true
agree (suc k) i a b = (bit_at a i == bit_at b i) && agree k (suc i) a b

pub bit_at-lt : (a : List ℕ) (i : ℕ) → bit_at a i ≤ 1
unfolding bit_at
bit_at-lt a i = omega arith

-- After an insertion of k bits a lookup succeeds if the bits agree, or if it did before.
pub contains_path-insert_path :
    (k m i : ℕ) (a b : List ℕ) (n : Node)
    → k ≤ m
    → contains_path m i b (insert_path k i a n).0 ≡ (agree k i a b || contains_path m i b n)
unfolding contains_path insert_path agree
contains_path-insert_path zero zero i a b nil h = refl
contains_path-insert_path zero zero i a b (node t l r) h = refl
contains_path-insert_path zero (suc m) i a b nil h = refl
contains_path-insert_path zero (suc m) i a b (node t l r) h = refl
contains_path-insert_path (suc k) zero i a b n h = absurd (omega arith)
contains_path-insert_path (suc k) (suc m) i a b nil h =
    ground (arith, contains_path-insert_path k m (suc i) a b nil, bit_at-lt a i, bit_at-lt b i)
contains_path-insert_path (suc k) (suc m) i a b (node t l r) h = ground (
  arith,
  contains_path-insert_path k m (suc i) a b l,
  contains_path-insert_path k m (suc i) a b r,
  bit_at-lt a i,
  bit_at-lt b i,
)

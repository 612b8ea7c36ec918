-- ===== src/Blocklist/Trie.antt =====
-- internal/blocklist/trie.go. Nodes have no sharing, so the writes through `n` are written as the
-- tree with the path to `n` replaced. A dereference of a nil root is `none`.
pub mod Walk
pub mod Count
pub mod Cover
pub mod Key
pub mod Lookup
pub mod Size
pub mod Distinct
pub mod Order
use bitblocker.Base.{
  ℕ, zero, suc, ◌+◌, ◌-◌, ◌/◌, ◌%◌, ◌^◌, Bool, true, false, not, ◌||◌, Option, none, some, List,
  get_or, ltb, ◌==◌, if◌then◌else◌,
}
use bitblocker.Netip.{
  Addr, is_valid, is4, as_bytes, unmap, Prefix, prefix_valid, prefix_bits, masked,
}

-- A `*node`: `nil`, or its terminal mark and its children at 0 and 1.
pub data Node : Type 0 where
  nil : Node
  node : Bool → Node → Node → Node

pub record Trie : Type 0 where
  pub root4 : Node
  pub root6 : Node
  pub count : ℕ

abbrev pub fresh_node : Node
fresh_node = node false nil nil

unfoldable pub new_trie : Trie
new_trie = record { root4 = fresh_node; root6 = fresh_node; count = 0 }

unfoldable pub len : Trie → ℕ
len t = t.count

-- `b[i/8] >> (7 - i%8) & 1`.
unfoldable pub bit_at : List ℕ → ℕ → ℕ
bit_at bytes i = get_or bytes (i / 8) 0 / 2 ^ (7 - i % 8) % 2

-- `if n.children[b] == nil { n.children[b] = &node{} }`.
abbrev pub ensure : Node → Node
ensure nil = fresh_node
ensure n = n

abbrev pub child : ℕ → Node → Node
child b nil = nil
child b (node t l r) = if b == 0 then l else r

abbrev pub set_child : ℕ → Node → Node → Node
set_child b c nil = nil
set_child b c (node t l r) = if b == 0 then node t c r else node t l c

abbrev pub is_terminal : Node → Bool
is_terminal nil = false
is_terminal (node t l r) = t

abbrev pub set_terminal : Node → Node
set_terminal nil = nil
set_terminal (node t l r) = node true l r

-- The loop of `Insert` from bit i with k bits to go, and the terminal mark after it. The flag says
-- that the mark is new.
unfoldable pub insert_path : ℕ → ℕ → List ℕ → Node → Node × Bool
insert_path zero i bytes n = (set_terminal (ensure n), not (is_terminal n))
insert_path (suc k) i bytes n =
    let (c, fresh) = insert_path k (suc i) bytes (child (bit_at bytes i) n) in
    (set_child (bit_at bytes i) c (ensure n), fresh)

-- `t.count++` when the mark is new.
abbrev pub bump : Bool → ℕ → ℕ
bump fresh n = if fresh then n + 1 else n

unfoldable pub insert_at : ℕ → List ℕ → Node → Option (Node × Bool)
insert_at bits bytes nil = none
insert_at bits bytes n = some (insert_path bits 0 bytes n)

unfoldable pub set_root4 : Trie → Option (Node × Bool) → Option Trie
set_root4 t none = none
set_root4 t (some (n, fresh)) = some (record t { root4 = n; count = bump fresh t.count })

unfoldable pub set_root6 : Trie → Option (Node × Bool) → Option Trie
set_root6 t none = none
set_root6 t (some (n, fresh)) = some (record t { root6 = n; count = bump fresh t.count })

-- `Insert` below the validity test, at the masked and unmapped address.
unfoldable pub insert_addr : ℕ → Addr → Trie → Option Trie
unfolding insert_at set_root4 set_root6
insert_addr bits a t =
    if is4 a
    then (if ltb 32 bits then some t else set_root4 t (insert_at bits (as_bytes a) t.root4))
    else (if ltb 128 bits then some t else set_root6 t (insert_at bits (as_bytes a) t.root6))

unfoldable pub insert : Trie → Prefix → Option Trie
unfolding insert_addr
insert t p =
    if not (prefix_valid p)
    then some t
    else insert_addr (prefix_bits (masked p)) (unmap (masked p).addr) t

-- The loop of `Contains` from bit i with k bits to go; at `nil` the step above has returned false.
pub contains_path : ℕ → ℕ → List ℕ → Node → Bool
contains_path k i bytes nil = false
contains_path zero i bytes (node t l r) = t
contains_path (suc k) i bytes (node t l r) =
    let below = contains_path k (suc i) bytes (if bit_at bytes i == 0 then l else r) in
    if t then true else below

abbrev pub contains_addr : Addr → Trie → Bool
contains_addr a t =
    if is4 a
    then contains_path 32 0 (as_bytes a) t.root4
    else contains_path 128 0 (as_bytes a) t.root6

pub contains : Trie → Addr → Bool
contains t ip = if not (is_valid ip) then false else contains_addr (unmap ip) t

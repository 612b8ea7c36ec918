-- ===== src/Mmdb.antt =====
-- internal/mmdb/loader.go. The database reader is a parameter: what opening a path gives, and the
-- networks that the traversal then yields.
pub mod Networks
pub mod Loading
mod Examples
use text.Mathlib.Text.{◌==◌ as str_eq}
use bitblocker.Base.{
  ℕ, zero, suc, ◌+◌, ◌-◌, ◌*◌, ◌/◌, ◌%◌, ◌^◌, String, Bool, true, false, ◌&&◌, Option, none, some,
  List, [], ◌∷◌, length, null, any, min, ◌==◌, ltb, if◌then◌else◌,
}
use bitblocker.Base.Result.{Result, ok, err}
use bitblocker.Netip.{Addr, zero_addr, v4, v6, Prefix, prefix_from}
use bitblocker.Blocklist.Trie.{Trie, new_trie, insert}

-- `net.IPNet`: the bytes of its address and of its mask.
pub record IpNet : Type 0 where
  pub ip : List ℕ
  pub mask : List ℕ

-- The loop of `net.simpleMaskLength` that counts the leading ones of a byte, with k bits to go: the
-- count, and whether the rest of the byte is zero.
unfoldable pub leading_ones : ℕ → ℕ → ℕ × Bool
leading_ones zero v = (0, v == 0)
leading_ones (suc k) v =
    let (n, clean) = leading_ones k (v * 2 % 256) in
    if ltb v 128 then (0, v == 0) else (suc n, clean)

abbrev pub all_zero : List ℕ → Bool
all_zero [] = true
all_zero (b ∷ bs) = b == 0 && all_zero bs

abbrev last_byte : ℕ × Bool → List ℕ → Option ℕ
last_byte (n, clean) bs = if clean && all_zero bs then some n else none

abbrev add_byte : Option ℕ → Option ℕ
add_byte none = none
add_byte (some n) = some (8 + n)

-- `net.simpleMaskLength`, with `none` for -1.
unfoldable pub mask_length : List ℕ → Option ℕ
unfolding leading_ones
mask_length [] = some 0
mask_length (b ∷ bs) =
    let rest = mask_length bs in if b == 255 then add_byte rest else last_byte (leading_ones 8 b) bs

-- The first result of `IPMask.Size`.
unfoldable pub mask_ones : List ℕ → ℕ
mask_ones mask = elim (mask_length mask) [ none ↦ 0 | some n ↦ n ]

unfoldable pub prefix_from_ip_net : Option IpNet → Option Prefix
prefix_from_ip_net none = none
prefix_from_ip_net (some n) =
    if length n.ip == 4
    then some (prefix_from (v4 n.ip) (mask_ones n.mask))
    else if length n.ip == 16
    then some (prefix_from (v6 n.ip "") (mask_ones n.mask))
    else none

-- What `Networks.Network` gives at one step of the traversal: a network and its country's code, or a
-- decoding error.
pub data Row : Type 0 where
  row : Option IpNet → String → Row
  undecodable : Row

-- The rows that the traversal yields, and whether `Networks.Err` is nil after them.
pub record Traversal : Type 0 where
  pub rows : List Row
  pub complete : Bool

pub data LoadError : Type 0 where
  no_countries cannot_open cannot_decode not_representable broken_traversal nil_dereference :
      LoadError

abbrev pub is_wanted : List String → String → Bool
is_wanted countries code = any (λ c. str_eq c code) countries

abbrev inserted : Option Trie → Result LoadError Trie
inserted none = err nil_dereference
inserted (some t) = ok t

abbrev pub insert_network : Trie → Option Prefix → Result LoadError Trie
insert_network t none = err not_representable
insert_network t (some p) = inserted (insert t p)

-- One pass of the traversal's loop.
unfoldable pub load_row : List String → Trie → Row → Result LoadError Trie
load_row countries t undecodable = err cannot_decode
load_row countries t (row subnet code) =
    if is_wanted countries code then insert_network t (prefix_from_ip_net subnet) else ok t

-- The loop, and the test of `networks.Err` after it.
unfoldable pub load_rows :
    List String → Bool → Result LoadError Trie → List Row → Result LoadError Trie
load_rows countries complete (err e) rs = err e
load_rows countries complete (ok t) [] = if complete then ok t else err broken_traversal
load_rows countries complete (ok t) (r ∷ rs) =
    load_rows countries complete (load_row countries t r) rs

-- `LoadCountryBlocklist` on what opening the path gives.
unfoldable pub load_country_blocklist : Option Traversal → List String → Result LoadError Trie
load_country_blocklist opened countries = if null countries then err no_countries else elim opened [
  | none ↦ err cannot_open
  | some n ↦ load_rows countries n.complete (ok new_trie) n.rows
]

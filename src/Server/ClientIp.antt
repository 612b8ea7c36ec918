-- ===== src/Server/ClientIp.antt =====
-- internal/server/clientip.go. A header value is a list of code points, and an absent header is the
-- empty list, as `Header.Get` has it. `netip.ParseAddr` is the parameter `parse_addr`: what is
-- proved holds of every parser.
pub mod Rightmost
mod Examples
use bitblocker.Base.{
  ℕ, zero, suc, ◌≡◌, refl, Bool, true, false, ◌&&◌, ◌||◌, Option, none, some, List, [], ◌∷◌, ◌++◌,
  length, get_or, null, reverse, leb, ◌==◌, if◌then◌else◌,
}
use bitblocker.Netip.{Addr, unmap}

abbrev pub Text : Type 0
Text = List ℕ

abbrev pub comma : ℕ
comma = 44

-- `unicode.IsSpace`.
abbrev pub is_space : ℕ → Bool
is_space c =
    (leb 9 c && leb c 13)
    || c == 32
    || c == 0x85
    || c == 0xA0
    || c == 0x1680
    || (leb 0x2000 c && leb c 0x200A)
    || c == 0x2028
    || c == 0x2029
    || c == 0x202F
    || c == 0x205F
    || c == 0x3000

trim_left : Text → Text
trim_left [] = []
trim_left (c ∷ cs) = let rest = trim_left cs in if is_space c then rest else c ∷ cs

-- `strings.TrimSpace`.
unfoldable pub trim_space : Text → Text
unfolding trim_left
trim_space s = reverse (trim_left (reverse (trim_left s)))

-- Puts a character in front of the first part.
abbrev pub onto_first : ℕ → List Text → List Text
onto_first c [] = (c ∷ []) ∷ []
onto_first c (p ∷ ps) = (c ∷ p) ∷ ps

-- `strings.Split(v, ",")`, which has at least one part.
unfoldable pub split_comma : Text → List Text
split_comma [] = [] ∷ []
split_comma (c ∷ cs) =
    let rest = split_comma cs in if c == comma then [] ∷ rest else onto_first c rest

pub record Headers : Type 0 where
  pub x_real_ip : Text
  pub x_forwarded_for : Text

-- `if addr, ok := x; ok { return addr }`, and then y.
abbrev pub or_else {ℓ} : {A : Type ℓ} → Option A → Option A → Option A
or_else none y = y
or_else (some a) y = some a

module _ (parse_addr : Text → Option Addr) where
  -- A trimmed value that is not empty and that parses, unmapped.
  abbrev pub entry : Text → Option Addr
  entry part =
      let p = trim_space part in
      if null p then none else elim (parse_addr p) [ none ↦ none | some a ↦ some (unmap a) ]

  -- The loop from index i - 1 down to 0.
  unfoldable pub scan_back : ℕ → List Text → Option Addr
  scan_back zero parts = none
  scan_back (suc i) parts = let rest = scan_back i parts in or_else (entry (get_or parts i [])) rest

  unfoldable pub rightmost_xff : Text → Option Addr
  unfolding scan_back
  rightmost_xff v = scan_back (length (split_comma v)) (split_comma v)

  abbrev pub from_xff : Text → Option Addr
  from_xff v = if null v then none else rightmost_xff v

  unfoldable pub extract_client_ip : Headers → Option Addr
  unfolding rightmost_xff
  extract_client_ip h = or_else (entry h.x_real_ip) (from_xff h.x_forwarded_for)

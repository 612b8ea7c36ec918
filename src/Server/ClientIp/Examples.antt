-- ===== src/Server/ClientIp/Examples.antt =====
-- Header values on which the theorems about the client address are applied.
use bitblocker.Base.{◌≡◌, ◌↔◌, refl, Option, none, some, [], ◌∷◌, ◌++◌, All}
use bitblocker.Netip.{Addr, v4, unmap}
use bitblocker.Server.ClientIp.{
  Text, Headers, comma, entry, split_comma, rightmost_xff, extract_client_ip, scan_back, trim_space,
}
use bitblocker.Server.ClientIp.Rightmost.{extract-prepend, extract-eq-none_iff}

-- A parser that takes one digit d for d.d.d.d.
abbrev one_digit : Text → Option Addr
one_digit (d ∷ []) = some (v4 (d ∷ d ∷ d ∷ d ∷ []))
one_digit _ = none

-- "7, 8" behind the entry "9" that a client sent.
abbrev spoofed : Text
spoofed = 57 ∷ []

abbrev seen : Text
seen = 55 ∷ 44 ∷ 32 ∷ 56 ∷ []

seen_rightmost : rightmost_xff one_digit seen ≡ some (v4 (56 ∷ 56 ∷ 56 ∷ 56 ∷ []))
unfolding rightmost_xff scan_back split_comma trim_space unmap
seen_rightmost = refl

extract-prepend_example :
    extract_client_ip one_digit
      (record { x_real_ip = []; x_forwarded_for = spoofed ++ comma ∷ seen })
    ≡ extract_client_ip one_digit (record { x_real_ip = []; x_forwarded_for = seen })
extract-prepend_example =
    extract-prepend one_digit [] spoofed seen (v4 (56 ∷ 56 ∷ 56 ∷ 56 ∷ [])) seen_rightmost

abbrev unreadable : Headers
unreadable = record { x_real_ip = []; x_forwarded_for = 49 ∷ 50 ∷ [] }

extract-eq-none_iff_example : (extract_client_ip one_digit unreadable ≡ none) ↔ (
    (entry one_digit unreadable.x_real_ip ≡ none)
    × All (λ p. entry one_digit p ≡ none) (split_comma unreadable.x_forwarded_for))
extract-eq-none_iff_example = extract-eq-none_iff one_digit unreadable

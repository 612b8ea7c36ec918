-- ===== src/Blocklist/Examples.antt =====
-- Prefixes and addresses on which the theorems about the trie are applied.
use bitblocker.Base.{◌≡◌, ◌↔◌, refl, true, some, List, [], ◌∷◌, All, any, arith}
use bitblocker.Netip.{Addr, v4, v6, IsAddr, unmap, Prefix, IsPrefix, same_block, covers}
use bitblocker.Blocklist.Trie.{Trie, new_trie, contains, len}
use bitblocker.Blocklist.Trie.Lookup.{insert_all}
use bitblocker.Blocklist.Trie.Distinct.{distinct}
use bitblocker.Blocklist.Canonical.{StoreSame, insert_all-StoreSame}
use bitblocker.Blocklist.Refinement.{contains-insert_all_new, len-insert_all_new}

-- 10.1.2.3/8 with host bits, and 192.168.0.0/16.
abbrev ten : Prefix
ten = record { addr = v4 (10 ∷ 1 ∷ 2 ∷ 3 ∷ []); bits_plus_one = 9 }

abbrev lan : Prefix
lan = record { addr = v4 (192 ∷ 168 ∷ 0 ∷ 0 ∷ []); bits_plus_one = 17 }

ten-IsPrefix : IsPrefix ten
ten-IsPrefix = omega arith

lan-IsPrefix : IsPrefix lan
lan-IsPrefix = omega arith

abbrev two : List Prefix
two = ten ∷ lan ∷ ten ∷ []

two-IsPrefix : All IsPrefix two
two-IsPrefix = omega arith

abbrev inside : Addr
inside = v6 (0 ∷ 0 ∷ 0 ∷ 0 ∷ 0 ∷ 0 ∷ 0 ∷ 0 ∷ 0 ∷ 0 ∷ 255 ∷ 255 ∷ 10 ∷ 9 ∷ 9 ∷ 9 ∷ []) ""

trie_of_two : Trie
trie_of_two = (contains-insert_all_new two two-IsPrefix).0

built : insert_all new_trie two ≡ some trie_of_two
unfolding trie_of_two
built = (contains-insert_all_new two two-IsPrefix).1

contains-insert_all_new_example :
    (t : Trie) × (insert_all new_trie two ≡ some t)
    × ((ip : Addr) → IsAddr ip → contains t ip ≡ any (λ p. covers p (unmap ip)) two)
contains-insert_all_new_example = contains-insert_all_new two two-IsPrefix

inside_blocked : any (λ p. covers p (unmap inside)) two ≡ true
unfolding covers unmap
inside_blocked = refl

len-insert_all_new_example : len trie_of_two ≡ distinct [] two
len-insert_all_new_example = len-insert_all_new two trie_of_two two-IsPrefix built

two_distinct : distinct [] two ≡ 2
unfolding distinct same_block
two_distinct = refl

-- The same two networks, without the repetition and in the other order.
abbrev again : List Prefix
again = lan ∷ ten ∷ []

again-IsPrefix : All IsPrefix again
again-IsPrefix = omega arith

trie_of_again : Trie
trie_of_again = (contains-insert_all_new again again-IsPrefix).0

built_again : insert_all new_trie again ≡ some trie_of_again
unfolding trie_of_again
built_again = (contains-insert_all_new again again-IsPrefix).1

insert_all-StoreSame_example : (trie_of_two ≡ trie_of_again) ↔ StoreSame two again
insert_all-StoreSame_example =
    insert_all-StoreSame trie_of_two trie_of_again two again two-IsPrefix again-IsPrefix built
      built_again

-- The order leaves no trace.
same_tries : trie_of_two ≡ trie_of_again
same_tries =
    (insert_all-StoreSame trie_of_two trie_of_again two again two-IsPrefix again-IsPrefix built
        built_again).1
      (λ p h s. ground arith)

-- ===== src/Mmdb/Examples.antt =====
-- A small database on which the theorems about the loader are applied.
use bitblocker.Base.{
  ◌≡◌, ◌≢◌, inl, inr, String, true, ◌&&◌, some, List, [], ◌∷◌, map, any, All, arith,
}
use bitblocker.Base.Result.{ok}
use bitblocker.Netip.{Addr, IsAddr, unmap, covers}
use bitblocker.Blocklist.Trie.{Trie, contains}
use bitblocker.Mmdb.{Traversal, is_wanted, load_country_blocklist}
use bitblocker.Mmdb.Networks.{Network, IsNetwork, row_of, prefix_of}
use bitblocker.Mmdb.Loading.{load_networks}

abbrev german : Network
german = record { bytes = 10 ∷ 0 ∷ 0 ∷ 0 ∷ []; bits = 9; country = "DE" }

abbrev french : Network
french = record {
  bytes = 32 ∷ 1 ∷ 0 ∷ 0 ∷ 0 ∷ 0 ∷ 0 ∷ 0 ∷ 0 ∷ 0 ∷ 0 ∷ 0 ∷ 0 ∷ 0 ∷ 0 ∷ 0 ∷ [];
  bits = 32;
  country = "FR";
}

abbrev networks : List Network
networks = german ∷ french ∷ []

networks-IsNetwork : All IsNetwork networks
networks-IsNetwork = (inl (omega arith, omega arith), (inr (omega arith, omega arith), tt))

abbrev wanted : List String
wanted = "DE" ∷ []

abbrev database : Traversal
database = record { rows = map row_of networks; complete = true }

a_country : wanted ≢ []
a_country h = ground arith

load_networks_example :
    (t : Trie) × (load_country_blocklist (some database) wanted ≡ ok t)
    × ((ip : Addr)
        → IsAddr ip
        → contains t ip
          ≡ any (λ n. is_wanted wanted n.country && covers (prefix_of n) (unmap ip)) networks)
load_networks_example = load_networks wanted networks a_country networks-IsNetwork

loaded_trie : Trie
loaded_trie = (load_networks wanted networks a_country networks-IsNetwork).0

database_loads : load_country_blocklist (some database) wanted ≡ ok loaded_trie
unfolding loaded_trie
database_loads = (load_networks wanted networks a_country networks-IsNetwork).1

-- ===== src/Diskcache/Examples.antt =====
-- File systems and writes on which the theorems about the disk cache are applied.
use text.Mathlib.TextEquality.{eq_iff}
use text.Mathlib.Text.{◌==◌ as str_eq}
use bitblocker.Base.{
  ℕ, ◌≡◌, ◌≢◌, inl, refl, subst, String, true, false, ◌&&◌, Option, none, some, List, [], ◌∷◌, map,
  any, All, arith, if◌then◌else◌,
}
use bitblocker.Base.Int.{pos}
use bitblocker.Base.Result.{ok}
use bitblocker.Netip.{Addr, IsAddr, unmap, covers}
use bitblocker.Blocklist.Trie.{Trie, contains}
use bitblocker.Mmdb.{Traversal, is_wanted}
use bitblocker.Mmdb.Networks.{Network, IsNetwork, row_of, prefix_of}
use bitblocker.Diskcache.{FileSystem, WriteRun, write, with_temp, write_temp, load}
use bitblocker.Diskcache.Writing.{IsAtomic, IsFresh, write-IsAtomic}
use bitblocker.Diskcache.Reading.{Answers, load-Answers, write-load}

abbrev path : String
path = "/cache/list.mmdb"

abbrev temp : String
temp = "/cache/list.1.tmp"

-- The old list, and nothing else.
abbrev files : FileSystem
files = λ p. if str_eq p path then some (record { bytes = 1 ∷ []; modified = 10 }) else none

abbrev a_write : WriteRun
a_write = record {
  now = 100;
  mkdir_fails = false;
  temp_name = some temp;
  chunks = (2 ∷ 3 ∷ []) ∷ (4 ∷ []) ∷ [];
  copied = true;
  sync_fails = false;
  close_fails = false;
  rename_fails = false;
  remove_fails = false;
}

other : path ≢ temp
other h = let eq : str_eq path temp ≡ true = (eq_iff path temp).1 h in ground (arith, eq)

a_write-IsFresh : IsFresh a_write path files
a_write-IsFresh tmp h =
    let e : temp ≡ tmp = cc in subst (λ (t : String). (path ≢ t) × (files t ≡ none)) e (other, refl)

write-IsAtomic_example : IsAtomic a_write path files (write a_write path files)
write-IsAtomic_example = write-IsAtomic a_write path files a_write-IsFresh

a_write_done : (write a_write path files).error ≡ none
unfolding write with_temp write_temp
a_write_done = refl

-- What every file with bytes holds.
abbrev networks : List Network
networks = record { bytes = 10 ∷ 0 ∷ 0 ∷ 0 ∷ []; bits = 8; country = "DE" } ∷ []

networks-IsNetwork : All IsNetwork networks
networks-IsNetwork = (inl (omega arith, omega arith), tt)

abbrev countries : List String
countries = "DE" ∷ []

abbrev opener : List ℕ → Option Traversal
opener (b ∷ bs) = some (record { rows = map row_of networks; complete = true })
opener [] = none

load-Answers_example :
    Answers opener countries
      (pos 50)
      120
      (files path)
      (load opener false files path (pos 50) 120 countries)
load-Answers_example = load-Answers opener countries (pos 50) 120 files path

wanted : countries ≢ []
wanted h = ground arith

write-load_example :
    (t : Trie) × (load opener false (write a_write path files).fs path (pos 50) 120 countries
      ≡ ok t)
    × ((ip : Addr)
        → IsAddr ip
        → contains t ip
          ≡ any (λ n. is_wanted countries n.country && covers (prefix_of n) (unmap ip)) networks)
write-load_example =
    write-load opener countries (pos 50) 120 a_write path files networks a_write-IsFresh
      a_write_done refl (omega arith) wanted networks-IsNetwork

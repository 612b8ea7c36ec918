-- ===== src/Blocklist/Source.antt =====
-- internal/blocklist/source.go. An atomic pointer is a cell whose loads and stores are single steps.
use bitblocker.Base.{Option, none}
use bitblocker.Blocklist.Trie.{Trie}

pub record Source : Type 0 where
  pub current : Option Trie

unfoldable pub new_source : Source
new_source = record { current = none }

-- `Current` returns nil as `none`.
unfoldable pub current_trie : Source → Option Trie
current_trie s = s.current

unfoldable pub swap : Source → Option Trie → Source
swap s t = record s { current = t }

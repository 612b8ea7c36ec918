-- ===== src/Fetcher/Refresh.antt =====
-- internal/fetcher/fetcher.go: `Refresh`. The reader of the database is a parameter.
use bitblocker.Base.{ℕ, String, Option, none, some, List, [], ◌∷◌, if◌then◌else◌}
use bitblocker.Base.Result.{Result, ok, err}
use bitblocker.Blocklist.Trie.{Trie}
use bitblocker.Blocklist.Source.{Source, swap}
use bitblocker.Mmdb.{Traversal, load_country_blocklist, LoadError}
use bitblocker.Diskcache.{WriteError, FileSystem, WriteRun, write}
use bitblocker.Fetcher.Calendar.{Date}
use bitblocker.Fetcher.Download.{
  Client, Fetcher, Validators, FetchError, Fetched, downloaded, unchanged, fetch, cache_not_written,
  not_loaded,
}

pub data Outcome : Type 0 where
  outcome_updated outcome_unchanged : Outcome

-- What a refresh reads and writes: the fetcher, the source of the server and the file system.
pub record State : Type 0 where
  pub fetcher : Fetcher
  pub source : Source
  pub fs : FileSystem

-- The file that `mmdb.LoadCountryBlocklist` opens.
abbrev pub opened_at : (List ℕ → Option Traversal) → String → FileSystem → Option Traversal
opened_at open_mmdb path fs = elim (fs path) [ none ↦ none | some x ↦ open_mmdb x.bytes ]

-- `Refresh` from the result of the load on.
unfoldable pub publish :
    State → Validators → Result LoadError Trie → State × Result FetchError Outcome
publish s v (err e) = (s, err (not_loaded e))
publish s v (ok t) = (
  record s { fetcher = record (s.fetcher) { validators = v }; source = swap s.source (some t) },
  ok outcome_updated,
)

-- `Refresh` from the result of the write on.
unfoldable pub load_written :
    (List ℕ → Option Traversal)
    → State
    → Validators
    → Option WriteError
    → State × Result FetchError Outcome
unfolding publish
load_written open_mmdb s v (some e) = (s, err (cache_not_written e))
load_written open_mmdb s v none =
    publish s v
      (load_country_blocklist (opened_at open_mmdb s.fetcher.cache_path s.fs) s.fetcher.countries)

-- The bytes go to the file in one piece, unless the copy breaks off.
abbrev pub with_bytes : List ℕ → WriteRun → WriteRun
with_bytes data_bytes run = record run {
  chunks = if run.copied then data_bytes ∷ [] else run.chunks;
}

unfoldable pub use_fetched :
    (List ℕ → Option Traversal)
    → WriteRun
    → State
    → Result FetchError Fetched
    → State × Result FetchError Outcome
unfolding load_written
use_fetched open_mmdb run s (err e) = (s, err e)
use_fetched open_mmdb run s (ok (unchanged v)) = (s, ok outcome_unchanged)
use_fetched open_mmdb run s (ok (downloaded data_bytes v)) =
    let w = write (with_bytes data_bytes run) s.fetcher.cache_path s.fs in
    load_written open_mmdb (record s { fs = w.fs }) v w.error

-- `Refresh`, which the mutex makes one step.
unfoldable pub refresh :
    Client
    → (List ℕ → Option Traversal)
    → Date
    → WriteRun
    → State
    → State × Result FetchError Outcome
unfolding use_fetched fetch
refresh client open_mmdb now run s = use_fetched open_mmdb run s (fetch client now s.fetcher).0

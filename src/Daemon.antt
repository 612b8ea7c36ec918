-- ===== src/Daemon.antt =====
-- cmd/bitblocker/main.go: the wiring of the components. Logging and the operating system's signals
-- are left out.
pub mod Wiring
pub mod Startup
pub mod Serving
pub mod Running
pub mod Entry
mod Examples
use bitblocker.Base.{
  ℕ, String, Bool, true, false, Option, none, some, List, [], ◌∷◌, zero, suc, ◌+◌, ◌/◌, ◌%◌, any,
  ◌==◌, if◌then◌else◌, ltb,
}
use bitblocker.Base.Int.{ℤ, pos, negsuc}
use bitblocker.Base.Result.{Result, ok, err, ◌>>=◌}
use bitblocker.Blocklist.Trie.{Trie, contains, len}
use bitblocker.Blocklist.Source.{Source, new_source, current_trie, swap}
use bitblocker.Config.{Config, ListenConfig, codes}
use bitblocker.Mmdb.{Traversal}
use bitblocker.Diskcache.{FileSystem, remove, CacheError, absent, stale, load}
use bitblocker.Server.Readiness.{Lookup}
use Prim.Native.String.{◌++◌ as append, slice}
use bitblocker.Logging
use bitblocker.Logging.{Logger, LoggingError}
use bitblocker.Server.Handlers
use bitblocker.Scheduler
use bitblocker.Fetcher.Download

-- A trie behind the interface `Lookup`.
abbrev pub lookup_of : Trie → Lookup
lookup_of t = record { contains = contains t; len = len t }

-- `newLookupSource`: an untyped nil, `none`, while no trie is loaded.
unfoldable pub lookup_source : Source → Option Lookup
lookup_source src = elim (current_trie src) [ none ↦ none | some t ↦ some (lookup_of t) ]

-- `Ready` of `buildScheduler`.
unfoldable pub is_ready : Source → Bool
is_ready src = elim (current_trie src) [ none ↦ false | some t ↦ ltb 0 (len t) ]

-- The lines that `loadDiskCache` and `removeUnusableCache` log.
pub data CacheLine : Type 0 where
  none_present too_stale unreadable not_removed loaded : CacheLine

-- `removeUnusableCache`; the flag says whether `os.Remove` fails in another way than by finding no file.
unfoldable pub remove_unusable_cache : Bool → String → FileSystem → FileSystem × List CacheLine
remove_unusable_cache fails path fs = if fails then (fs, not_removed ∷ []) else (remove path fs, [])

unfoldable pub after_load :
    Bool
    → String
    → Source
    → FileSystem
    → Result CacheError Trie
    → Source × FileSystem × List CacheLine
unfolding remove_unusable_cache
after_load fails path src fs (ok t) = (swap src (some t), fs, loaded ∷ [])
after_load fails path src fs (err absent) = (src, fs, none_present ∷ [])
after_load fails path src fs (err stale) =
    let (fs', more) = remove_unusable_cache fails path fs in (src, fs', too_stale ∷ more)
after_load fails path src fs (err e) =
    let (fs', more) = remove_unusable_cache fails path fs in (src, fs', unreadable ∷ more)

-- `loadDiskCache`.
unfoldable pub load_disk_cache :
    (open_mmdb : List ℕ → Option Traversal) (stat_fails remove_fails : Bool) (now : ℕ)
    → Config
    → Source
    → FileSystem
    → Source × FileSystem × List CacheLine
unfolding after_load
load_disk_cache open_mmdb stat_fails remove_fails now cfg src fs =
    after_load remove_fails cfg.cache.path src fs
      (load open_mmdb stat_fails fs cfg.cache.path cfg.cache.max_age now cfg.block.countries)

-- `strconv.Itoa` of a number that is not negative, with fuel for its digits.
abbrev pub digit : ℕ → String
digit d = slice "0123456789" d (d + 1)

pub itoa_from : ℕ → ℕ → String
itoa_from zero n = ""
itoa_from (suc fuel) n =
    let more = itoa_from fuel (n / 10) in if ltb n 10 then digit n else append more (digit (n % 10))

abbrev itoa : ℤ → String
itoa (pos n) = itoa_from 20 n
itoa (negsuc n) = append "-" (itoa_from 20 (n + 1))

-- `server.AddrFromConfig`, by `net.JoinHostPort`: a host with a colon is put in brackets.
unfoldable pub addr_from_config : ListenConfig → String
unfolding itoa_from
addr_from_config c =
    append (if any (λ x. x == 58) (codes c.host) then append "[" (append c.host "]") else c.host)
      (append ":" (itoa c.port))

-- The options that `run` hands to `server.New`, `newFetcher` to `fetcher.New` and `buildScheduler` to
-- `scheduler.New`; the source, the logger and the functions are there.
unfoldable pub server_options : Config → Handlers.Options
unfolding addr_from_config
server_options cfg = record {
  addr = addr_from_config cfg.listen;
  lookup_given = true;
  logger_given = true;
  block_status = cfg.behavior.response_code;
  log_blocked = cfg.behavior.log_blocked;
  log_allowed = cfg.behavior.log_allowed;
  startup_mode = cfg.behavior.startup_mode;
}

unfoldable pub fetcher_options : Config → Download.Options
fetcher_options cfg = record {
  client_given = true;
  cache_path = cfg.cache.path;
  countries = cfg.block.countries;
  source_given = true;
  logger_given = true;
}

unfoldable pub scheduler_options : Config → Scheduler.Options
scheduler_options cfg = record {
  schedule = cfg.refresh.schedule;
  timeout = cfg.refresh.timeout;
  refresh_given = true;
  ready_given = true;
  logger_given = true;
  cold_start = record { max_attempts = pos 0; base_delay = pos 0; max_delay = pos 0 };
}

-- The components that `run` starts.
pub record Components : Type 0 where
  pub log : Logger
  pub serving : Handlers.Server
  pub fetching : Download.Fetcher
  pub scheduling : Scheduler.Scheduler

pub data SetupError : Type 0 where
  logging_failed : LoggingError → SetupError
  server_failed : Handlers.NewError → SetupError
  fetcher_failed : Download.NewError → SetupError
  scheduler_failed : Scheduler.NewError → SetupError

abbrev pub fail_with {ℓ κ ι} :
    {E : Type ℓ} {F : Type κ} {A : Type ι} → (E → F) → Result E A → Result F A
fail_with f (ok a) = ok a
fail_with f (err e) = err (f e)

-- `run` from the loaded configuration to the start of the components, but for the load of the disk
-- cache, which cannot fail.
unfoldable pub set_up : Config → Result SetupError Components
unfolding server_options fetcher_options scheduler_options
set_up cfg = fail_with logging_failed (Logging.new cfg.logging) >>= λ l.
    fail_with server_failed (Handlers.new_server (server_options cfg)) >>= λ s.
    fail_with fetcher_failed (Download.new_fetcher (fetcher_options cfg)) >>= λ f.
    fail_with scheduler_failed (Scheduler.new_scheduler (scheduler_options cfg)) >>= λ c.
    ok (record { log = l; serving = s; fetching = f; scheduling = c })

-- ===== src/Config/Validity.antt =====
-- internal/config/config.go: `Validate` against an independent description of a usable configuration.
use text.Mathlib.TextEquality.{eq_iff}
use bitblocker.Base.{
  ℕ, suc, ◌≤◌, ◌≡◌, ◌≢◌, ◌↔◌, ◌⊎◌, refl, String, Bool, true, false, ◌||◌, List, [], ◌∷◌, ◌++◌, null,
  All, arith,
}
use bitblocker.Base.Int.{pos, ◌≤ℤ◌, ltb_ℤ}
use bitblocker.Server.Readiness.{startup_fail_closed, startup_fail_open}
use bitblocker.Config.{
  ListenConfig, BlockConfig, SourcesConfig, RefreshConfig, BehaviorConfig, CacheConfig,
  LoggingConfig, Config, Problem, bad_port, empty_host, two_uppers, when, is_empty, codes,
  country_code_matches, validate_listen, country_problems, validate_block, validate_sources,
  validate_refresh, is_valid_startup_mode, is_valid_log_level, is_valid_log_format,
  validate_behavior, validate_cache, validate_logging, validate, log_level_debug, log_level_info,
  log_level_warn, log_level_error, log_format_json, log_format_text,
}

-- Two letters from A to Z.
pub record IsCountryCode (s : String) : Type 0 where
  pub first : ℕ
  pub second : ℕ
  pub two : codes s ≡ first ∷ second ∷ []
  pub upper_first : (65 ≤ first) × (first ≤ 90)
  pub upper_second : (65 ≤ second) × (second ≤ 90)

abbrev pub IsListen : ListenConfig → Type 0
IsListen c = (pos 1 ≤ℤ c.port) × (c.port ≤ℤ pos 65535) × (c.host ≢ "")

abbrev pub IsBlock : BlockConfig → Type 0
IsBlock c = ((c.countries ≢ []) ⊎ (c.asns ≢ [])) × All IsCountryCode c.countries

abbrev pub IsSources : SourcesConfig → Type 0
IsSources c = (c.dbip_enabled ≡ true) ⊎ (c.bgptools_enabled ≡ true)

abbrev pub IsRefresh : (String → Bool) → RefreshConfig → Type 0
IsRefresh cron_parses c = (c.schedule ≢ "") × (cron_parses c.schedule ≡ true) × (pos 1 ≤ℤ c.timeout)

abbrev pub IsStartupMode : String → Type 0
IsStartupMode m = (m ≡ startup_fail_closed) ⊎ (m ≡ startup_fail_open)

abbrev pub IsBehavior : BehaviorConfig → Type 0
IsBehavior c =
    IsStartupMode c.startup_mode × (pos 400 ≤ℤ c.response_code) × (c.response_code ≤ℤ pos 599)

abbrev pub IsCache : CacheConfig → Type 0
IsCache c = (c.path ≢ "") × (pos 1 ≤ℤ c.max_age)

abbrev pub IsLevel : String → Type 0
IsLevel l =
    (l ≡ log_level_debug) ⊎ ((l ≡ log_level_info) ⊎ ((l ≡ log_level_warn) ⊎ (l ≡ log_level_error)))

abbrev pub IsFormat : String → Type 0
IsFormat f = (f ≡ log_format_json) ⊎ (f ≡ log_format_text)

-- A configuration that the daemon can use.
pub record IsValid (cron_parses : String → Bool) (c : Config) : Type 0 where
  pub valid_listen : IsListen c.listen
  pub valid_block : IsBlock c.block
  pub valid_sources : IsSources c.sources
  pub valid_refresh : IsRefresh cron_parses c.refresh
  pub valid_behavior : IsBehavior c.behavior
  pub valid_cache : IsCache c.cache
  pub valid_level : IsLevel c.logging.level
  pub valid_format : IsFormat c.logging.format

append-nil {ℓ} : {A : Type ℓ} (xs ys : List A) → ((xs ++ ys) ≡ []) ↔ ((xs ≡ []) × (ys ≡ []))
append-nil [] ys = ground arith
append-nil (x ∷ xs) ys = ground arith

when-nil : (b : Bool) (p : Problem) → (when b p ≡ []) ↔ (b ≡ false)
when-nil true p = ground arith
when-nil false p = ground arith

pub is_empty_lem : (s : String) → (is_empty s ≡ false) ↔ (s ≢ "")
is_empty_lem s = ground (arith, eq_iff s "")

pub null_iff {ℓ} : {A : Type ℓ} (xs : List A) → (null xs ≡ false) ↔ (xs ≢ [])
null_iff [] = ground arith
null_iff (x ∷ xs) = ground arith

two_uppers_lem :
    (cs : List ℕ)
    → (two_uppers cs ≡ true)
      ↔ ((a : ℕ) × (b : ℕ) × (cs ≡ a ∷ b ∷ []) × ((65 ≤ a) × (a ≤ 90)) × ((65 ≤ b) × (b ≤ 90)))
two_uppers_lem [] = ground arith
two_uppers_lem (a ∷ []) = ground arith
two_uppers_lem (a ∷ b ∷ []) =
    (λ h. (a, b, refl, ground arith, ground arith), λ (x, y, e, p, q). ground arith)
two_uppers_lem (a ∷ b ∷ c ∷ cs) = ground arith

pub country_code_lem : (s : String) → (country_code_matches s ≡ true) ↔ IsCountryCode s
unfolding country_code_matches
country_code_lem s = (
  λ h.
      let (a, b, e, p, q) = (two_uppers_lem (codes s)).0 h in
      record { first = a; second = b; two = e; upper_first = p; upper_second = q },
  λ v. (two_uppers_lem (codes s)).1 (v.first, v.second, v.two, v.upper_first, v.upper_second),
)

pub listen_lem : (c : ListenConfig) → (validate_listen c ≡ []) ↔ IsListen c
unfolding validate_listen
listen_lem c = ground (
  arith,
  is_empty_lem c.host,
  append-nil (when (ltb_ℤ c.port (pos 1) || ltb_ℤ (pos 65535) c.port) (bad_port c.port))
      (when (is_empty c.host) empty_host),
)

country_problems_lem :
    (i : ℕ) (ccs : List String) → (country_problems i ccs ≡ []) ↔ All IsCountryCode ccs
unfolding country_problems
country_problems_lem i [] = ground arith
country_problems_lem i (s ∷ ss) =
    ground (arith, country_code_lem s, country_problems_lem (suc i) ss)

block_lem : (c : BlockConfig) → (validate_block c ≡ []) ↔ IsBlock c
unfolding validate_block
block_lem c =
    ground (arith, null_iff c.countries, null_iff c.asns, country_problems_lem 0 c.countries)

sources_lem : (c : SourcesConfig) → (validate_sources c ≡ []) ↔ IsSources c
unfolding validate_sources
sources_lem c = ground arith

refresh_lem :
    (cron_parses : String → Bool) (c : RefreshConfig)
    → (validate_refresh cron_parses c ≡ []) ↔ IsRefresh cron_parses c
unfolding validate_refresh
refresh_lem cron_parses c = ground (arith, is_empty_lem c.schedule)

pub startup_mode_lem : (m : String) → (is_valid_startup_mode m ≡ true) ↔ IsStartupMode m
startup_mode_lem m = ground (arith, eq_iff m startup_fail_closed, eq_iff m startup_fail_open)

behavior_lem : (c : BehaviorConfig) → (validate_behavior c ≡ []) ↔ IsBehavior c
unfolding validate_behavior
behavior_lem c = ground (arith, startup_mode_lem c.startup_mode)

cache_lem : (c : CacheConfig) → (validate_cache c ≡ []) ↔ IsCache c
unfolding validate_cache
cache_lem c = ground (arith, is_empty_lem c.path)

pub level_lem : (l : String) → (is_valid_log_level l ≡ true) ↔ IsLevel l
level_lem l = ground (
  arith,
  eq_iff l log_level_debug,
  eq_iff l log_level_info,
  eq_iff l log_level_warn,
  eq_iff l log_level_error,
)

pub format_lem : (f : String) → (is_valid_log_format f ≡ true) ↔ IsFormat f
format_lem f = ground (arith, eq_iff f log_format_json, eq_iff f log_format_text)

logging_lem :
    (c : LoggingConfig) → (validate_logging c ≡ []) ↔ (IsLevel c.level × IsFormat c.format)
unfolding validate_logging
logging_lem c = ground (arith, level_lem c.level, format_lem c.format)

-- `Validate` reports no problem exactly for a usable configuration: a port from 1 to 65535, a host, a
-- country or an AS number to block, every country two capital letters, a source, a schedule that the
-- cron parser takes, a positive timeout and cache age, a cache path, a 4xx or 5xx response code, and a
-- known startup mode, log level and log format.
pub validate-IsValid :
    (cron_parses : String → Bool) (c : Config)
    → (validate cron_parses c ≡ []) ↔ IsValid cron_parses c
unfolding validate
validate-IsValid cron_parses c = ground (
  arith,
  listen_lem c.listen,
  block_lem c.block,
  sources_lem c.sources,
  refresh_lem cron_parses c.refresh,
  behavior_lem c.behavior,
  cache_lem c.cache,
  logging_lem c.logging,
)

-- ===== src/Config.antt =====
-- internal/config/config.go. The cron parser, the YAML decoder and the file system are parameters.
pub mod Validity
pub mod Faults
pub mod Defaults
mod Examples
use text.Mathlib.Text.{◌==◌ as str_eq}
use Prim.Native.Char.{Char, code}
use Prim.Native.String.{[] as end, ◌∷◌ as char_cons}
use bitblocker.Base.{
  ℕ, zero, suc, ◌+◌, ◌*◌, String, Bool, true, false, not, ◌&&◌, ◌||◌, Option, none, some, List, [],
  ◌∷◌, ◌++◌, null, leb, if◌then◌else◌,
}
use bitblocker.Base.Int.{ℤ, pos, ltb_ℤ}
use bitblocker.Base.Result.{Result, ok, err, ◌>>=◌}
use bitblocker.Server.Readiness.{startup_fail_closed, startup_fail_open}

pub record ListenConfig : Type 0 where
  pub host : String
  pub port : ℤ

pub record BlockConfig : Type 0 where
  pub countries : List String
  pub asns : List ℕ

pub record SourcesConfig : Type 0 where
  pub dbip_enabled : Bool
  pub bgptools_enabled : Bool

pub record RefreshConfig : Type 0 where
  pub schedule : String
  pub timeout : ℤ

pub record BehaviorConfig : Type 0 where
  pub log_blocked : Bool
  pub log_allowed : Bool
  pub response_code : ℤ
  pub startup_mode : String

pub record CacheConfig : Type 0 where
  pub path : String
  pub max_age : ℤ

pub record LoggingConfig : Type 0 where
  pub level : String
  pub format : String

pub record Config : Type 0 where
  pub listen : ListenConfig
  pub block : BlockConfig
  pub sources : SourcesConfig
  pub refresh : RefreshConfig
  pub behavior : BehaviorConfig
  pub cache : CacheConfig
  pub logging : LoggingConfig

abbrev pub second : ℕ
second = 1000000000

abbrev pub log_level_debug : String
log_level_debug = "debug"

abbrev pub log_level_info : String
log_level_info = "info"

abbrev pub log_level_warn : String
log_level_warn = "warn"

abbrev pub log_level_error : String
log_level_error = "error"

abbrev pub log_format_json : String
log_format_json = "json"

abbrev pub log_format_text : String
log_format_text = "text"

unfoldable pub defaults : Config
defaults = record {
  listen = record { host = "127.0.0.1"; port = pos 8080 };
  block = record { countries = []; asns = [] };
  sources = record { dbip_enabled = false; bgptools_enabled = false };
  refresh = record { schedule = "0 3 * * *"; timeout = pos (30 * second) };
  behavior = record {
    log_blocked = true;
    log_allowed = false;
    response_code = pos 403;
    startup_mode = startup_fail_closed;
  };
  cache = record {
    path = "/var/cache/bitblocker/dbip-country-lite.mmdb";
    max_age = pos (48 * (60 * (60 * second)));
  };
  logging = record { level = log_level_info; format = log_format_json };
}

-- The errors that `Validate` joins.
pub data Problem : Type 0 where
  bad_port : ℤ → Problem
  empty_host no_block_entry no_source empty_schedule : Problem
  bad_country : ℕ → String → Problem
  bad_schedule : String → Problem
  bad_timeout bad_response_code bad_max_age : ℤ → Problem
  empty_cache_path : Problem
  bad_startup_mode bad_log_level bad_log_format : String → Problem

-- `if test { errs = append(errs, p) }`.
abbrev pub when : Bool → Problem → List Problem
when b p = if b then p ∷ [] else []

abbrev pub is_empty : String → Bool
is_empty s = str_eq s ""

abbrev pub codes : String → List ℕ
codes String.[] = []
codes (String.◌∷◌ c s) = code c ∷ codes s

abbrev pub is_upper : ℕ → Bool
is_upper c = leb 65 c && leb c 90

abbrev pub two_uppers : List ℕ → Bool
two_uppers (a ∷ b ∷ []) = is_upper a && is_upper b
two_uppers _ = false

-- `^[A-Z]{2}$`.
unfoldable pub country_code_matches : String → Bool
country_code_matches s = two_uppers (codes s)

unfoldable pub validate_listen : ListenConfig → List Problem
validate_listen c =
    when (ltb_ℤ c.port (pos 1) || ltb_ℤ (pos 65535) c.port) (bad_port c.port)
    ++ when (is_empty c.host) empty_host

-- The loop over the countries, from an index on.
unfoldable pub country_problems : ℕ → List String → List Problem
country_problems i [] = []
country_problems i (cc ∷ ccs) =
    when (not (country_code_matches cc)) (bad_country i cc) ++ country_problems (suc i) ccs

unfoldable pub validate_block : BlockConfig → List Problem
validate_block c =
    when (null c.countries && null c.asns) no_block_entry ++ country_problems 0 c.countries

unfoldable pub validate_sources : SourcesConfig → List Problem
validate_sources c = when (not c.dbip_enabled && not c.bgptools_enabled) no_source

-- `cron.ParseStandard` succeeds.
unfoldable pub validate_refresh : (String → Bool) → RefreshConfig → List Problem
validate_refresh cron_parses c =
    (if is_empty c.schedule
      then empty_schedule ∷ []
      else when (not (cron_parses c.schedule)) (bad_schedule c.schedule))
    ++ when (ltb_ℤ c.timeout (pos 1)) (bad_timeout c.timeout)

abbrev pub is_valid_startup_mode : String → Bool
is_valid_startup_mode m = str_eq m startup_fail_closed || str_eq m startup_fail_open

abbrev pub is_valid_log_level : String → Bool
is_valid_log_level l =
    str_eq l log_level_debug
    || str_eq l log_level_info
    || str_eq l log_level_warn
    || str_eq l log_level_error

abbrev pub is_valid_log_format : String → Bool
is_valid_log_format f = str_eq f log_format_json || str_eq f log_format_text

unfoldable pub validate_behavior : BehaviorConfig → List Problem
validate_behavior c =
    when (not (is_valid_startup_mode c.startup_mode)) (bad_startup_mode c.startup_mode)
    ++ when (ltb_ℤ c.response_code (pos 400) || ltb_ℤ (pos 599) c.response_code)
        (bad_response_code c.response_code)

unfoldable pub validate_cache : CacheConfig → List Problem
validate_cache c =
    when (is_empty c.path) empty_cache_path
    ++ when (ltb_ℤ c.max_age (pos 1)) (bad_max_age c.max_age)

unfoldable pub validate_logging : LoggingConfig → List Problem
validate_logging c =
    when (not (is_valid_log_level c.level)) (bad_log_level c.level)
    ++ when (not (is_valid_log_format c.format)) (bad_log_format c.format)

-- `errors.Join` returns nil for the empty list.
unfoldable pub validate : (String → Bool) → Config → List Problem
validate cron_parses c =
    validate_listen c.listen
    ++ (validate_block c.block
        ++ (validate_sources c.sources
            ++ (validate_refresh cron_parses c.refresh
                ++ (validate_behavior c.behavior
                    ++ (validate_cache c.cache ++ validate_logging c.logging)))))

pub data LoadError : Type 0 where
  unreadable malformed : LoadError
  invalid : List Problem → LoadError

abbrev accept : Config → List Problem → Result LoadError Config
accept c [] = ok c
accept c (p ∷ ps) = err (invalid (p ∷ ps))

abbrev or_error : Option Config → LoadError → Result LoadError Config
or_error none e = err e
or_error (some c) e = ok c

-- `Load`: the file at the path, decoded over the defaults.
unfoldable pub load :
    (read_file : String → Option (List ℕ)) (decode : List ℕ → Config → Option Config)
    → (String → Bool)
    → String
    → Result LoadError Config
load read_file decode cron_parses path = elim (read_file path) [
  | none ↦ err unreadable
  | some raw ↦ or_error (decode raw defaults) malformed >>= λ c. accept c (validate cron_parses c)
]

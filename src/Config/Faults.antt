-- ===== src/Config/Faults.antt =====
-- internal/config/config.go: which problems `Validate` reports.
pub mod Sound
pub mod Complete
use text.Mathlib.TextEquality.{eq_iff}
use bitblocker.Base.{
  ℕ, zero, suc, ◌+◌, ◌≤◌, ◌≡◌, ◌≢◌, ◌↔◌, ◌⊎◌, inl, inr, refl, sym, ap, subst, ◌∙◌, String, Bool,
  true, false, not, ◌||◌, ◌&&◌, Option, none, some, List, [], ◌∷◌, ◌++◌, null, get_elem?,
  if◌then◌else◌, arith, Bool-cases,
}
use bitblocker.Base.Int.{ℤ, pos, ◌≤ℤ◌, ltb_ℤ}
use bitblocker.Config.{
  ListenConfig, BlockConfig, SourcesConfig, RefreshConfig, BehaviorConfig, CacheConfig,
  LoggingConfig, Config, Problem, bad_port, empty_host, no_block_entry, no_source, empty_schedule,
  bad_country, bad_schedule, bad_timeout, bad_response_code, bad_max_age, empty_cache_path,
  bad_startup_mode, bad_log_level, bad_log_format, when, is_empty, country_code_matches,
  validate_listen, country_problems, validate_block, validate_sources, validate_refresh,
  is_valid_startup_mode, is_valid_log_level, is_valid_log_format, validate_behavior, validate_cache,
  validate_logging, validate,
}
use bitblocker.Config.Validity.{
  IsCountryCode, IsSources, IsStartupMode, IsLevel, IsFormat, is_empty_lem, null_iff,
  country_code_lem, startup_mode_lem, level_lem, format_lem,
}

-- What is wrong with a configuration, and the problem that names it.
pub data Fault (cron_parses : String → Bool) (c : Config) : Problem → Type 0 where
  port_fault :
      ¬ ((pos 1 ≤ℤ c.listen.port) × (c.listen.port ≤ℤ pos 65535))
      → Fault cron_parses c (bad_port c.listen.port)
  host_fault : c.listen.host ≡ "" → Fault cron_parses c empty_host
  block_fault : c.block.countries ≡ [] → c.block.asns ≡ [] → Fault cron_parses c no_block_entry
  country_fault :
      (i : ℕ) (s : String)
      → get_elem? c.block.countries i ≡ some s
      → ¬ IsCountryCode s
      → Fault cron_parses c (bad_country i s)
  source_fault : ¬ IsSources c.sources → Fault cron_parses c no_source
  schedule_missing : c.refresh.schedule ≡ "" → Fault cron_parses c empty_schedule
  schedule_fault :
      c.refresh.schedule ≢ ""
      → cron_parses c.refresh.schedule ≡ false
      → Fault cron_parses c (bad_schedule c.refresh.schedule)
  timeout_fault :
      ¬ (pos 1 ≤ℤ c.refresh.timeout) → Fault cron_parses c (bad_timeout c.refresh.timeout)
  mode_fault :
      ¬ IsStartupMode c.behavior.startup_mode
      → Fault cron_parses c (bad_startup_mode c.behavior.startup_mode)
  response_fault :
      ¬ ((pos 400 ≤ℤ c.behavior.response_code) × (c.behavior.response_code ≤ℤ pos 599))
      → Fault cron_parses c (bad_response_code c.behavior.response_code)
  path_fault : c.cache.path ≡ "" → Fault cron_parses c empty_cache_path
  age_fault : ¬ (pos 1 ≤ℤ c.cache.max_age) → Fault cron_parses c (bad_max_age c.cache.max_age)
  level_fault : ¬ IsLevel c.logging.level → Fault cron_parses c (bad_log_level c.logging.level)
  format_fault : ¬ IsFormat c.logging.format → Fault cron_parses c (bad_log_format c.logging.format)

-- The list has the problem.
abbrev pub Reports : List Problem → Problem → Type 0
Reports [] p = ⊥
Reports (q ∷ qs) p = (p ≡ q) ⊎ Reports qs p

pub Reports-append :
    (ps qs : List Problem) (p : Problem) → Reports (ps ++ qs) p ↔ (Reports ps p ⊎ Reports qs p)
Reports-append [] qs p = ground arith
Reports-append (q ∷ ps) qs p = ground (arith, Reports-append ps qs p)

pub Reports-when : (b : Bool) (q p : Problem) → Reports (when b q) p ↔ ((b ≡ true) × (p ≡ q))
Reports-when true q p = ground arith
Reports-when false q p = ground arith

-- One of the countries from an index on is no code.
abbrev pub BadCountry : ℕ → List String → Problem → Type 0
BadCountry i ccs p =
    (k : ℕ) × (s : String) × (get_elem? ccs k ≡ some s)
    × (¬ IsCountryCode s)
    × (p ≡ bad_country (i + k) s)

country_at :
    (i : ℕ) (s : String) (ss : List String) (p : Problem)
    → (BadCountry (suc i) ss p → Reports (country_problems (suc i) ss) p)
    → (k : ℕ) (u : String) → get_elem? (s ∷ ss) k ≡ some u
    → ¬ IsCountryCode u
    → p ≡ bad_country (i + k) u
    → Reports (when (not (country_code_matches s)) (bad_country i s)) p
      ⊎ Reports (country_problems (suc i) ss) p
country_at i s ss p rest zero u g n e =
    let same : s ≡ u = ground arith in
    let unfit : ¬ IsCountryCode s = λ v. n (subst IsCountryCode same v) in
    let unmatched : not (country_code_matches s) ≡ true = ground (arith, country_code_lem s) in
    inl (
      (Reports-when (not (country_code_matches s)) (bad_country i s) p).1
        (unmatched, e ∙ ap (λ j. bad_country j u) (omega arith) ∙ ap (bad_country i) (sym same)))
country_at i s ss p rest (suc k) u g n e =
    inr (rest (k, u, g, n, e ∙ ap (λ j. bad_country j u) (omega arith)))

-- The countries from an index on.
pub Reports-country_problems :
    (i : ℕ) (ccs : List String) (p : Problem)
    → Reports (country_problems i ccs) p ↔ BadCountry i ccs p
unfolding country_problems
Reports-country_problems i [] p = ground arith
Reports-country_problems i (s ∷ ss) p =
    let rest = Reports-country_problems (suc i) ss p in
    let split =
      Reports-append (when (not (country_code_matches s)) (bad_country i s))
        (country_problems (suc i) ss) p in
    let here = Reports-when (not (country_code_matches s)) (bad_country i s) p in
    (
      λ h. elim (split.0 h) [
        | inl a ↦
            let (b, e) = here.0 a in
            (
              zero,
              s,
              refl,
              λ v. ground (arith, country_code_lem s),
              e ∙ ap (λ j. bad_country j s) (omega arith),
            )
        | inr a ↦
            let (k, u, g, n, e) = rest.0 a in
            (suc k, u, g, n, e ∙ ap (λ j. bad_country j u) (omega arith))
      ],
      λ (k, u, g, n, e). split.1 (country_at i s ss p rest.1 k u g n e),
    )

-- The problems of the schedule.
abbrev pub of_schedule : (String → Bool) → Config → List Problem
of_schedule cron_parses c =
    if is_empty c.refresh.schedule
    then empty_schedule ∷ []
    else when (not (cron_parses c.refresh.schedule)) (bad_schedule c.refresh.schedule)

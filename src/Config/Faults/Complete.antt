-- ===== src/Config/Faults/Complete.antt =====
-- internal/config/config.go: each fault of the configuration is among the problems that `Validate`
-- reports.
use text.Mathlib.TextEquality.{eq_iff}
use bitblocker.Base.{
  ◌≡◌, ◌≢◌, ◌↔◌, inl, inr, refl, ap, String, Bool, true, false, not, ◌||◌, ◌&&◌, List, ◌++◌, null,
  arith,
}
use bitblocker.Base.Int.{pos, ltb_ℤ}
use bitblocker.Config.{
  Config, Problem, empty_schedule, bad_country, bad_schedule, when, is_empty, validate_listen,
  validate_block, validate_sources, validate_refresh, is_valid_startup_mode, is_valid_log_level,
  is_valid_log_format, validate_behavior, validate_cache, validate_logging, validate,
}
use bitblocker.Config.Validity.{is_empty_lem, startup_mode_lem, level_lem, format_lem}
use bitblocker.Config.Faults.{
  Fault, port_fault, host_fault, block_fault, country_fault, source_fault, schedule_missing,
  schedule_fault, timeout_fault, mode_fault, response_fault, path_fault, age_fault, level_fault,
  format_fault, Reports, Reports-append, Reports-when, Reports-country_problems, of_schedule,
}
use bitblocker.Config.Faults.Sound.{validate_faults}

-- A problem that the first list reports, or the second.
early : (ps qs : List Problem) (p : Problem) → Reports ps p → Reports (ps ++ qs) p
early ps qs p h = (Reports-append ps qs p).1 (inl h)

late : (ps qs : List Problem) (p : Problem) → Reports qs p → Reports (ps ++ qs) p
late ps qs p h = (Reports-append ps qs p).1 (inr h)

reported : (b : Bool) (q : Problem) → b ≡ true → Reports (when b q) q
reported b q t = (Reports-when b q q).1 (t, refl)

module _ (cron_parses : String → Bool) (c : Config) where
  -- The parts of the list, from the listener's on.
  abbrev from_cache : List Problem
  from_cache = validate_cache c.cache ++ validate_logging c.logging

  abbrev from_behavior : List Problem
  from_behavior = validate_behavior c.behavior ++ from_cache

  abbrev from_refresh : List Problem
  from_refresh = validate_refresh cron_parses c.refresh ++ from_behavior

  abbrev from_sources : List Problem
  from_sources = validate_sources c.sources ++ from_refresh

  abbrev from_block : List Problem
  from_block = validate_block c.block ++ from_sources

  in_cache : (p : Problem) → Reports from_cache p → Reports (validate cron_parses c) p
  unfolding validate
  in_cache p h = late (validate_listen c.listen) from_block p (
      late (validate_block c.block) from_sources p (
        late (validate_sources c.sources) from_refresh p (
          late (validate_refresh cron_parses c.refresh) from_behavior p
            (late (validate_behavior c.behavior) from_cache p h))))

  in_behavior :
      (p : Problem) → Reports (validate_behavior c.behavior) p → Reports (validate cron_parses c) p
  unfolding validate
  in_behavior p h = late (validate_listen c.listen) from_block p (
      late (validate_block c.block) from_sources p (
        late (validate_sources c.sources) from_refresh p (
          late (validate_refresh cron_parses c.refresh) from_behavior p
            (early (validate_behavior c.behavior) from_cache p h))))

  in_refresh :
      (p : Problem)
      → Reports (validate_refresh cron_parses c.refresh) p
      → Reports (validate cron_parses c) p
  unfolding validate
  in_refresh p h = late (validate_listen c.listen) from_block p (
      late (validate_block c.block) from_sources p (
        late (validate_sources c.sources) from_refresh p
          (early (validate_refresh cron_parses c.refresh) from_behavior p h)))

  in_sources :
      (p : Problem) → Reports (validate_sources c.sources) p → Reports (validate cron_parses c) p
  unfolding validate
  in_sources p h = late (validate_listen c.listen) from_block p (
      late (validate_block c.block) from_sources p
        (early (validate_sources c.sources) from_refresh p h))

  in_block : (p : Problem) → Reports (validate_block c.block) p → Reports (validate cron_parses c) p
  unfolding validate
  in_block p h =
      late (validate_listen c.listen) from_block p (early (validate_block c.block) from_sources p h)

  in_listen :
      (p : Problem) → Reports (validate_listen c.listen) p → Reports (validate cron_parses c) p
  unfolding validate
  in_listen p h = early (validate_listen c.listen) from_block p h

  missing : c.refresh.schedule ≡ "" → Reports (of_schedule cron_parses c) empty_schedule
  missing e =
      let t : is_empty c.refresh.schedule ≡ true = ground (arith, eq_iff c.refresh.schedule "") in
      rw t (inl refl)

  unparsed :
      c.refresh.schedule ≢ ""
      → cron_parses c.refresh.schedule ≡ false
      → Reports (of_schedule cron_parses c) (bad_schedule c.refresh.schedule)
  unparsed n e =
      let t : is_empty c.refresh.schedule ≡ false =
        ground (arith, is_empty_lem c.refresh.schedule) in
      rw (t, e) (inl refl)

  reports : (p : Problem) → Fault cron_parses c p → Reports (validate cron_parses c) p
  unfolding validate_listen validate_block validate_sources validate_refresh validate_behavior
      validate_cache validate_logging
  reports _ (port_fault n) = in_listen _ (
      early _ _ _ (
        reported (ltb_ℤ c.listen.port (pos 1) || ltb_ℤ (pos 65535) c.listen.port) _ (ground arith)))
  reports _ (host_fault e) =
      in_listen _
        (late _ _ _ (reported (is_empty c.listen.host) _ (ground (arith, eq_iff c.listen.host ""))))
  reports _ (block_fault e f) =
      in_block _
        (early _ _ _ (reported (null c.block.countries && null c.block.asns) _ (ground arith)))
  reports _ (country_fault i s g n) = in_block _ (
      late _ _ _ (
        (Reports-country_problems 0 c.block.countries (bad_country i s)).1
          (i, s, g, n, ap (λ j. bad_country j s) (omega arith))))
  reports _ (source_fault n) =
      in_sources _
        (reported (not c.sources.dbip_enabled && not c.sources.bgptools_enabled) _ (ground arith))
  reports _ (schedule_missing e) = in_refresh _ (early (of_schedule cron_parses c) _ _ (missing e))
  reports _ (schedule_fault n e) =
      in_refresh _ (early (of_schedule cron_parses c) _ _ (unparsed n e))
  reports _ (timeout_fault n) =
      in_refresh _ (late _ _ _ (reported (ltb_ℤ c.refresh.timeout (pos 1)) _ (ground arith)))
  reports _ (mode_fault n) = in_behavior _ (
      early _ _ _ (
        reported (not (is_valid_startup_mode c.behavior.startup_mode)) _
          (ground (arith, startup_mode_lem c.behavior.startup_mode))))
  reports _ (response_fault n) = in_behavior _ (
      late _ _ _ (
        reported
          (ltb_ℤ c.behavior.response_code (pos 400) || ltb_ℤ (pos 599) c.behavior.response_code) _
          (ground arith)))
  reports _ (path_fault e) = in_cache _ (
      early (validate_cache c.cache) _ _
        (early _ _ _ (reported (is_empty c.cache.path) _ (ground (arith, eq_iff c.cache.path "")))))
  reports _ (age_fault n) = in_cache _ (
      early (validate_cache c.cache) _ _
        (late _ _ _ (reported (ltb_ℤ c.cache.max_age (pos 1)) _ (ground arith))))
  reports _ (level_fault n) = in_cache _ (
      late (validate_cache c.cache) _ _ (
        early _ _ _ (
          reported (not (is_valid_log_level c.logging.level)) _
            (ground (arith, level_lem c.logging.level)))))
  reports _ (format_fault n) = in_cache _ (
      late (validate_cache c.cache) _ _ (
        late _ _ _ (
          reported (not (is_valid_log_format c.logging.format)) _
            (ground (arith, format_lem c.logging.format)))))

  -- `Validate` reports every problem of a configuration and nothing else: each error that it joins names a
  -- fault, with the value or the index at which it stands, and each fault is among the errors.
  pub Reports-validate : (p : Problem) → Reports (validate cron_parses c) p ↔ Fault cron_parses c p
  Reports-validate p = (validate_faults cron_parses c p, reports p)

-- ===== src/Config/Faults/Sound.antt =====
-- internal/config/config.go: each problem that `Validate` reports is a fault of the configuration.
use text.Mathlib.TextEquality.{eq_iff}
use bitblocker.Base.{
  null-nil, ◌≡◌, inl, inr, sym, ap, subst, ◌∙◌, String, Bool, true, not, ◌||◌, ◌&&◌, List, [], ◌∷◌,
  ◌++◌, null, arith, Bool-cases,
}
use bitblocker.Base.Int.{pos, ltb_ℤ}
use bitblocker.Config.{
  Config, Problem, bad_port, empty_host, no_block_entry, no_source, empty_schedule, bad_country,
  bad_schedule, bad_timeout, bad_response_code, bad_max_age, empty_cache_path, bad_startup_mode,
  bad_log_level, bad_log_format, when, is_empty, validate_listen, validate_block, validate_sources,
  validate_refresh, is_valid_startup_mode, is_valid_log_level, is_valid_log_format,
  validate_behavior, validate_cache, validate_logging, validate,
}
use bitblocker.Config.Validity.{is_empty_lem, startup_mode_lem, level_lem, format_lem}
use bitblocker.Config.Faults.{
  Fault, port_fault, host_fault, block_fault, country_fault, source_fault, schedule_missing,
  schedule_fault, timeout_fault, mode_fault, response_fault, path_fault, age_fault, level_fault,
  format_fault, Reports, Reports-append, Reports-when, Reports-country_problems, of_schedule,
}

-- The problems of each part of the configuration.
module _ (cron_parses : String → Bool) (c : Config) where
  abbrev pub FaultsIn : List Problem → Type 0
  FaultsIn ps = (p : Problem) → Reports ps p → Fault cron_parses c p

  when_faults : (b : Bool) (q : Problem) → (b ≡ true → Fault cron_parses c q) → FaultsIn (when b q)
  when_faults b q f p h =
      let (t, e) = (Reports-when b q p).0 h in subst (Fault cron_parses c) (sym e) (f t)

  append_faults : (ps qs : List Problem) → FaultsIn ps → FaultsIn qs → FaultsIn (ps ++ qs)
  append_faults ps qs f g p h = elim ((Reports-append ps qs p).0 h) [
    | inl a ↦ f p a
    | inr a ↦ g p a
  ]

  listen_faults : FaultsIn (validate_listen c.listen)
  unfolding validate_listen
  listen_faults =
      append_faults _ _
        (when_faults (ltb_ℤ c.listen.port (pos 1) || ltb_ℤ (pos 65535) c.listen.port)
          (bad_port c.listen.port) (λ b. port_fault (λ v. ground arith)))
        (when_faults (is_empty c.listen.host) empty_host
          (λ b. host_fault (ground (arith, eq_iff c.listen.host ""))))

  block_faults : FaultsIn (validate_block c.block)
  unfolding validate_block
  block_faults =
      append_faults _ _
        (when_faults (null c.block.countries && null c.block.asns) no_block_entry (λ b.
          block_fault (null-nil c.block.countries (ground arith))
            (null-nil c.block.asns (ground arith))))
        (λ p h.
          let (k, s, g, n, e) = (Reports-country_problems 0 c.block.countries p).0 h in
          subst (Fault cron_parses c) (sym (e ∙ ap (λ j. bad_country j s) (omega arith)))
            (country_fault k s g n))

  source_faults : FaultsIn (validate_sources c.sources)
  unfolding validate_sources
  source_faults =
      when_faults (not c.sources.dbip_enabled && not c.sources.bgptools_enabled) no_source
        (λ b. source_fault (λ v. ground arith))

  schedule_faults : FaultsIn (of_schedule cron_parses c)
  schedule_faults p h = elim (Bool-cases (is_empty c.refresh.schedule)) [
    | inl t ↦
        subst (Fault cron_parses c) (sym (only_one p (rw t at h)))
          (schedule_missing (ground (arith, eq_iff c.refresh.schedule "")))
    | inr f ↦
        when_faults (not (cron_parses c.refresh.schedule)) (bad_schedule c.refresh.schedule)
          (λ b. schedule_fault (ground (arith, is_empty_lem c.refresh.schedule)) (ground arith)) p
          (rw f at h)
  ]
    where
      only_one : (p : Problem) → Reports (empty_schedule ∷ []) p → p ≡ empty_schedule
      only_one p h = ground arith

  refresh_faults : FaultsIn (validate_refresh cron_parses c.refresh)
  unfolding validate_refresh
  refresh_faults = append_faults _ _ schedule_faults (
      when_faults (ltb_ℤ c.refresh.timeout (pos 1)) (bad_timeout c.refresh.timeout)
        (λ b. timeout_fault (λ v. ground arith)))

  behavior_faults : FaultsIn (validate_behavior c.behavior)
  unfolding validate_behavior
  behavior_faults =
      append_faults _ _
        (when_faults (not (is_valid_startup_mode c.behavior.startup_mode))
          (bad_startup_mode c.behavior.startup_mode)
          (λ b. mode_fault (λ v. ground (arith, startup_mode_lem c.behavior.startup_mode))))
        (when_faults
          (ltb_ℤ c.behavior.response_code (pos 400) || ltb_ℤ (pos 599) c.behavior.response_code)
          (bad_response_code c.behavior.response_code) (λ b. response_fault (λ v. ground arith)))

  cache_faults : FaultsIn (validate_cache c.cache)
  unfolding validate_cache
  cache_faults =
      append_faults _ _
        (when_faults (is_empty c.cache.path) empty_cache_path
          (λ b. path_fault (ground (arith, eq_iff c.cache.path ""))))
        (when_faults (ltb_ℤ c.cache.max_age (pos 1)) (bad_max_age c.cache.max_age)
          (λ b. age_fault (λ v. ground arith)))

  logging_faults : FaultsIn (validate_logging c.logging)
  unfolding validate_logging
  logging_faults =
      append_faults _ _
        (when_faults (not (is_valid_log_level c.logging.level)) (bad_log_level c.logging.level)
          (λ b. level_fault (λ v. ground (arith, level_lem c.logging.level))))
        (when_faults (not (is_valid_log_format c.logging.format)) (bad_log_format c.logging.format)
          (λ b. format_fault (λ v. ground (arith, format_lem c.logging.format))))

  pub validate_faults : FaultsIn (validate cron_parses c)
  unfolding validate
  validate_faults = append_faults _ _ listen_faults (
      append_faults _ _ block_faults (
        append_faults _ _ source_faults (
          append_faults _ _ refresh_faults
            (append_faults _ _ behavior_faults (append_faults _ _ cache_faults logging_faults)))))

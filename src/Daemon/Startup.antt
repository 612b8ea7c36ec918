-- ===== src/Daemon/Startup.antt =====
-- cmd/bitblocker/main.go: which valid configurations the constructors of the components take.
use text.Mathlib.Text.{◌==◌ as str_eq}
use text.Mathlib.TextEquality.{eq_iff}
use text.Mathlib.TextLemmas.{append-eq-nil_iff}
use bitblocker.Base.{
  null-nil, ◌≡◌, ◌≢◌, ◌⊎◌, inl, inr, refl, String, Bool, true, false, ◌||◌, List, [], ◌∷◌, null,
  arith, Bool-cases,
}
use bitblocker.Base.Int.{pos, ltb_ℤ}
use bitblocker.Base.Result.{ok, err}
use bitblocker.Config.{Config, ListenConfig}
use bitblocker.Config.Validity.{IsValid}
use bitblocker.Logging.Levels.{new_total}
use bitblocker.Server.Handlers
use bitblocker.Server.Readiness.{startup_fail_closed, startup_fail_open}
use bitblocker.Scheduler
use bitblocker.Scheduler.{not_positive}
use bitblocker.Fetcher.Download
use bitblocker.Daemon.{
  Components, fetcher_failed, addr_from_config, server_options, fetcher_options, scheduler_options,
  set_up,
}

not_empty : (s : String) → s ≢ "" → str_eq s "" ≡ false
not_empty s n = ground (arith, eq_iff s "")

abbrev colon : String
colon = ":"

colon_given : colon ≢ ""
colon_given e = let eq : str_eq colon "" ≡ true = (eq_iff colon "").1 e in ground (arith, eq)

addr_given : (c : ListenConfig) → str_eq (addr_from_config c) "" ≡ false
unfolding addr_from_config
addr_given c =
    not_empty (addr_from_config c)
      (λ e. colon_given (append-eq-nil_iff.0 (append-eq-nil_iff.0 e).1).0)

null-cons {ℓ} : {A : Type ℓ} (xs : List A) → null xs ≡ false → xs ≢ []
null-cons [] h e = ground arith
null-cons (x ∷ xs) h e = ground arith

module _ (cron_parses : String → Bool) (cfg : Config) (v : IsValid cron_parses cfg) where
  server_built : (s : Handlers.Server) × (Handlers.new_server (server_options cfg) ≡ ok s)
  unfolding Handlers.new_server server_options
  server_built =
      let m = v.valid_behavior in
      let known : Handlers.is_startup_mode cfg.behavior.startup_mode ≡ true = ground (
        arith,
        m.0,
        eq_iff cfg.behavior.startup_mode startup_fail_closed,
        eq_iff cfg.behavior.startup_mode startup_fail_open,
      ) in
      let in_range : (ltb_ℤ cfg.behavior.response_code (pos 400)
            || ltb_ℤ (pos 599) cfg.behavior.response_code)
          ≡ false =
        ground (arith, m.1, m.2) in
      rw (addr_given cfg.listen, in_range, known, Handlers.new_server) (_, refl)

  scheduler_built :
      (s : Scheduler.Scheduler) × (Scheduler.new_scheduler (scheduler_options cfg) ≡ ok s)
  unfolding Scheduler.new_scheduler scheduler_options
  scheduler_built =
      let timed : not_positive cfg.refresh.timeout ≡ false = ground (arith, v.valid_refresh.2) in
      rw (not_empty cfg.refresh.schedule v.valid_refresh.0, timed, Scheduler.new_scheduler)
        (_, refl)

  fetcher_built :
      null cfg.block.countries ≡ false
      → (f : Download.Fetcher) × (Download.new_fetcher (fetcher_options cfg) ≡ ok f)
  unfolding Download.new_fetcher fetcher_options
  fetcher_built n = rw (not_empty cfg.cache.path v.valid_cache.0, n, Download.new_fetcher) (_, refl)

  fetcher_refuses :
      null cfg.block.countries ≡ true
      → Download.new_fetcher (fetcher_options cfg) ≡ err Download.countries_required
  unfolding Download.new_fetcher fetcher_options
  fetcher_refuses n = rw (not_empty cfg.cache.path v.valid_cache.0, n, Download.new_fetcher) refl

  asns_listed : cfg.block.countries ≡ [] → cfg.block.asns ≢ []
  asns_listed e = elim v.valid_block.0 [ inl n ↦ absurd (n e) | inr n ↦ n ]

  -- A valid configuration starts every component if it names a country; one that names AS numbers only
  -- is valid, too, but the fetcher refuses it, and the daemon does not start.
  pub set_up-IsValid :
      ((c : Components) × (set_up cfg ≡ ok c) × (cfg.block.countries ≢ []))
      ⊎ ((set_up cfg ≡ err (fetcher_failed Download.countries_required))
          × (cfg.block.countries ≡ [])
          × (cfg.block.asns ≢ []))
  unfolding set_up
  set_up-IsValid =
      let (l, log) = new_total cfg.logging v.valid_level v.valid_format in
      let (s, server) = server_built in
      let (c, scheduler) = scheduler_built in
      elim (Bool-cases (null cfg.block.countries)) [
        | inl n ↦
            let none_listed : cfg.block.countries ≡ [] = null-nil cfg.block.countries n in
            inr (
              rw (log, server, fetcher_refuses n, set_up) refl,
              none_listed,
              asns_listed none_listed,
            )
        | inr n ↦
            let (f, fetcher) = fetcher_built n in
            inl (
              record { log = l; serving = s; fetching = f; scheduling = c },
              rw (log, server, fetcher, scheduler, set_up) refl,
              λ e. null-cons cfg.block.countries n e,
            )
      ]

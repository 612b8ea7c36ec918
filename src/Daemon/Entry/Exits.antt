-- ===== src/Daemon/Entry/Exits.antt =====
-- cmd/bitblocker/main.go: the command line, and the exit code.
use text.Mathlib.TextLemmas.{cons-append, nil-append}
use Prim.Native.String.{◌++◌ as append}
use bitblocker.Base.{
  ℕ, ◌≡◌, ◌≢◌, ◌↔◌, refl, sym, ap, ◌∙◌, String, Bool, true, false, Option, none, some, List, [],
  ◌∷◌, arith, inl, inr,
}
use bitblocker.Base.Result.{Result, ok, err, ◌>>=◌}
use bitblocker.Netip.{Addr}
use bitblocker.Server.Readiness.{Lookup}
use bitblocker.Server.ClientIp.{Text}
use bitblocker.Config.{Config, LoadError, load}
use bitblocker.Config.Defaults.{Loads, loads, load_iff}
use bitblocker.Daemon.Startup.{set_up-IsValid}
use bitblocker.Config.Validity.{IsValid}
use bitblocker.Scheduler.Running.{Cron, IsCron}
use bitblocker.Daemon.{Components, set_up, fail_with}
use bitblocker.Daemon.Running.{Reach, Running, ended}
use bitblocker.Daemon.Running.Results.{daemon_result}
use bitblocker.Daemon.Entry.{
  flag_failed, config_failed, not_set_up, split_value, read_word, parse_args, flag, default_path,
  ExitError, exit_code, prepare, Run, not_started, ran,
}

abbrev behind_minus : String → String
behind_minus v = String.◌∷◌ "c" (
    String.◌∷◌ "o"
      (String.◌∷◌ "n" (String.◌∷◌ "f" (String.◌∷◌ "i" (String.◌∷◌ "g" (String.◌∷◌ "=" v))))))

long_form : (v : String) → append "config=" v ≡ behind_minus v
long_form v =
    rw
      (
        cons-append "c" "onfig=" v,
        cons-append "o" "nfig=" v,
        cons-append "n" "fig=" v,
        cons-append "f" "ig=" v,
        cons-append "i" "g=" v,
        cons-append "g" "=" v,
        cons-append "=" "" v,
        nil-append v,
      )
      refl

one_minus : (v : String) → read_word (append "-config=" v) ≡ flag "config" (some v)
unfolding read_word split_value
one_minus v = rw (cons-append "-" "config=" v, long_form v) refl

two_minus : (v : String) → read_word (append "--config=" v) ≡ flag "config" (some v)
unfolding read_word split_value
two_minus v = rw (cons-append "-" "-config=" v, cons-append "-" "config=" v, long_form v) refl

-- `-config=v`, `--config=v`, and either spelling with the value as the next argument set the path to v
-- and go on with the arguments behind it, so of several values the last one counts.
pub spellings :
    (path v : String) (args : List String)
    → let set = parse_args false v args in
      (parse_args false path (append "-config=" v ∷ args) ≡ set)
      × (parse_args false path (append "--config=" v ∷ args) ≡ set)
      × (parse_args false path ("-config" ∷ v ∷ args) ≡ set)
      × (parse_args false path ("--config" ∷ v ∷ args) ≡ set)
unfolding parse_args read_word split_value
spellings path v args =
    (rw (one_minus v, parse_args) refl, rw (two_minus v, parse_args) refl, refl, refl)

-- A chain that succeeds has a first link that does.
chain {ℓ κ ι ν} :
    {E : Type ℓ} {F : Type κ} {A : Type ι} {B : Type ν} (f : E → F) (r : Result E A)
    (k : A → Result F B) (b : B)
    → (fail_with f r >>= k) ≡ ok b
    → (a : A) × (r ≡ ok a) × (k a ≡ ok b)
chain f (ok a) k b h = (a, refl, h)
chain f (err e) k b h = ground arith

ok-inj {ℓ κ} : {E : Type ℓ} {A : Type κ} (r : Result E A) (a b : A) → r ≡ ok a → r ≡ ok b → a ≡ b
ok-inj r a b g h = ground arith

module _ (read_file : String → Option (List ℕ)) (decode : List ℕ → Config → Option Config)
    (cron_parses : String → Bool) where
  abbrev pub load_config : String → Result LoadError Config
  load_config = load read_file decode cron_parses

  prepare-ok :
      (args : List String) (cfg : Config) (c : Components)
      → prepare load_config args ≡ ok (cfg, c)
      → (path : String) × (parse_args false default_path args ≡ ok path)
        × (load_config path ≡ ok cfg)
        × (set_up cfg ≡ ok c)
  unfolding prepare
  prepare-ok args cfg c h =
      let (path, parsed, h1) = chain flag_failed (parse_args false default_path args) _ _ h in
      let (cfg', loaded, h2) = chain config_failed (load_config path) _ _ h1 in
      let (c', built, h3) = chain not_set_up (set_up cfg') _ _ h2 in
      let same = ok-inj _ (cfg', c') (cfg, c) refl h3 in
      (
        path,
        parsed,
        loaded ∙ ap (λ x. ok x.0) same,
        ap set_up (sym (ap (λ x. x.0) same)) ∙ built ∙ ap (λ x. ok x.1) same,
      )

  country_named :
      (cfg : Config) (c : Components)
      → IsValid cron_parses cfg
      → set_up cfg ≡ ok c
      → cfg.block.countries ≢ []
  country_named cfg c v h = elim (set_up-IsValid cron_parses cfg v) [
    | inl (d, e, n) ↦ n
    | inr (e, n, m) ↦ absurd (ground arith)
  ]

  -- The components of a valid configuration that names a country.
  built :
      (cfg : Config)
      → IsValid cron_parses cfg
      → cfg.block.countries ≢ []
      → (c : Components) × (set_up cfg ≡ ok c)
  built cfg v n = elim (set_up-IsValid cron_parses cfg v) [
    | inl (c, e, m) ↦ (c, e)
    | inr (e, m, k) ↦ absurd (n m)
  ]

  usable :
      (path : String) (cfg : Config)
      → Loads read_file decode cron_parses path cfg
      → IsValid cron_parses cfg
  usable path cfg (loads raw r d v) = v

  -- The components are started with a configuration exactly when the command line is read, `Load`
  -- finds that configuration at the path which the line gives, and it names a country: no other valid
  -- configuration is refused.
  pub starts_iff :
      (args : List String) (cfg : Config)
      → ((c : Components) × (prepare load_config args ≡ ok (cfg, c))) ↔ (
          (path : String) × (parse_args false default_path args ≡ ok path)
          × Loads read_file decode cron_parses path cfg
          × (cfg.block.countries ≢ []))
  unfolding prepare
  starts_iff args cfg = (
    λ (c, h).
        let (path, parsed, loaded, done) = prepare-ok args cfg c h in
        let l = (load_iff read_file decode cron_parses path cfg).0 loaded in
        (path, parsed, l, country_named cfg c (usable path cfg l) done),
    λ (path, parsed, l, n).
        let (c, done) = built cfg (usable path cfg l) n in
        (c, rw (parsed, (load_iff read_file decode cron_parses path cfg).1 l, done, prepare) refl),
  )

  module _ (parse_addr : Text → Option Addr) (redacted : Addr → Text) (cron : Cron) where
    -- A run of the components to its end, with what it started from.
    pub record CleanRun (args : List String) : Type 0 where
      pub path : String
      pub config : Config
      pub components : Components
      pub now : ℕ
      pub seen : Option Lookup
      pub last : Running
      pub parsed : parse_args false default_path args ≡ ok path
      pub loaded : Loads read_file decode cron_parses path config
      pub country_given : config.block.countries ≢ []
      pub is_built : set_up config ≡ ok components
      pub ran_to :
          Reach parse_addr redacted cron components.scheduling components.serving now seen last
      pub is_over : last.place ≡ ended none
      pub signalled : last.is_signalled ≡ true
      pub heartbeat_over : last.server.beating ≡ false
      pub no_refresh : last.scheduler.jobs ≡ 0

    -- The process exits with 0 only after it has run: the command line gave a path, `Load` found a usable
    -- configuration there which names a country, the components were built of it, and they ran until
    -- a signal came, and then to their end, with no heartbeat and no refresh left under way; of the
    -- cron this takes what it documents of `SkipIfStillRunning` and `Stop`.
    pub exits_clean :
        (args : List String) (out : Option ExitError)
        → IsCron cron
        → Run parse_addr redacted cron load_config args out
        → exit_code out ≡ 0
        → CleanRun args
    unfolding exit_code
    exits_clean args _ law (not_started e h) z = ground arith
    exits_clean args _ law (ran cfg c now l t (some e) h x p) z = ground arith
    exits_clean args _ law (ran cfg c now l t none h x p) z =
        let (file, given, found, done) = prepare-ok args cfg c h in
        let w = (load_iff read_file decode cron_parses file cfg).0 found in
        let (beat, idle, signal_seen, rest) =
          daemon_result parse_addr redacted cron c.scheduling c.serving now l t none law x p in
        record {
          path = file;
          config = cfg;
          components = c;
          now = now;
          seen = l;
          last = t;
          parsed = given;
          loaded = w;
          country_given = country_named cfg c (usable file cfg w) done;
          is_built = done;
          ran_to = x;
          is_over = p;
          signalled = signal_seen refl;
          heartbeat_over = beat;
          no_refresh = idle;
        }

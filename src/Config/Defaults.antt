-- ===== src/Config/Defaults.antt =====
-- internal/config/config.go: what `Load` returns, and the values that stand where a file sets nothing.
use bitblocker.Base.{
  ℕ, ◌≡◌, ◌≢◌, ◌↔◌, inl, inr, refl, ap, subst, String, Bool, Option, none, some, List, [], ◌∷◌,
  arith, Option-cases,
}
use bitblocker.Base.Result.{ok, ◌>>=◌}
use bitblocker.Config.{Config, Problem, malformed, defaults, validate, accept, or_error, load}
use bitblocker.Config.Validity.{IsValid, IsSources, validate-IsValid}

module _ (read_file : String → Option (List ℕ)) (decode : List ℕ → Config → Option Config)
    (cron_parses : String → Bool) where
  -- What `Load` does to a file that it can use.
  pub data Loads (path : String) (c : Config) : Type 0 where
    loads :
        (raw : List ℕ)
        → read_file path ≡ some raw
        → decode raw defaults ≡ some c
        → IsValid cron_parses c
        → Loads path c

  accept-ok : (c d : Config) (ps : List Problem) → accept c ps ≡ ok d → (ps ≡ []) × (c ≡ d)
  accept-ok c d [] h = (refl, ground arith)
  accept-ok c d (p ∷ ps) h = ground arith

  decoded :
      (o : Option Config) (c : Config)
      → (or_error o malformed >>= (λ d. accept d (validate cron_parses d))) ≡ ok c
      → (o ≡ some c) × IsValid cron_parses c
  decoded none c h = ground arith
  decoded (some d) c h =
      let (v, e) = accept-ok d c (validate cron_parses d) h in
      (ap some e, subst (IsValid cron_parses) e ((validate-IsValid cron_parses d).0 v))

  accepts : (c : Config) → IsValid cron_parses c → accept c (validate cron_parses c) ≡ ok c
  accepts c v = rw ((validate-IsValid cron_parses c).1 v) refl

  load-Loads :
      (path : String) (c : Config) → load read_file decode cron_parses path ≡ ok c → Loads path c
  unfolding load
  load-Loads path c h = elim (Option-cases (read_file path)) [
    | inl n ↦ ground arith
    | inr (raw, r) ↦
        let (d, v) = decoded (decode raw defaults) c (rw (r, load) at h) in loads raw r d v
  ]

  -- `Load` returns a configuration exactly when the file is read, its decoding over the defaults
  -- succeeds with that configuration, and the configuration is usable.
  pub load_iff :
      (path : String) (c : Config) → (load read_file decode cron_parses path ≡ ok c) ↔ Loads path c
  unfolding load
  load_iff path c =
      (load-Loads path c, elim [ loads raw r d v ↦ rw (r, load) (rw d (accepts c v)) ])

  sourceless : (c d : Config) → c ≡ d → c.sources ≡ defaults.sources → ¬ IsSources d.sources
  unfolding defaults
  sourceless c d e s v = ground arith

  -- A file whose decoding leaves both source switches as the defaults set them is never loaded: no
  -- configuration comes of it, whatever else the file says.
  pub no_source-rejected :
      (path : String) (raw : List ℕ) (c d : Config)
      → read_file path ≡ some raw
      → decode raw defaults ≡ some c
      → c.sources ≡ defaults.sources
      → load read_file decode cron_parses path ≢ ok d
  no_source-rejected path raw c d r e s h = elim ((load_iff path d).0 h) [
    | loads raw' r' e' v ↦ sourceless c d (cc) s v.valid_sources
  ]

-- ===== src/Logging/Levels.antt =====
-- internal/logging/logging.go: which configurations give a logger, and what it lets through.
use text.Mathlib.TextEquality.{eq_iff}
use bitblocker.Base.{
  ◌≡◌, inl, inr, refl, sym, ◌∙◌, Bool, true, false, String, List, [], ◌∷◌, ◌++◌, arith,
}
use bitblocker.Base.Int.{ℤ, ◌≤ℤ◌}
use bitblocker.Base.Result.{Result, ok, err}
use bitblocker.Config.{
  LoggingConfig, log_level_debug, log_level_info, log_level_warn, log_level_error, log_format_json,
  log_format_text,
}
use bitblocker.Config.Validity.{IsLevel, IsFormat}
use bitblocker.Logging.{
  Logger, LoggingError, slog_level, with_level, new_with_writer, new, enabled, level_debug,
  level_info, level_warn, level_error, ContextValue, under_ctx_key, under_other_key, with_context,
  from_context, discard,
}

abbrev pub has_logger {ℓ} : {V : Type ℓ} → List (ContextValue V) → Bool
has_logger [] = false
has_logger (under_ctx_key l ∷ ctx) = true
has_logger (under_other_key v ∷ ctx) = has_logger ctx

level_of-IsLevel : (l : String) → IsLevel l → (n : ℤ) × (slog_level l ≡ ok n) × (n ≤ℤ level_error)
unfolding slog_level
level_of-IsLevel l (inl e) = rw e (level_debug, refl, omega arith)
level_of-IsLevel l (inr (inl e)) = rw e (level_info, refl, omega arith)
level_of-IsLevel l (inr (inr (inl e))) = rw e (level_warn, refl, omega arith)
level_of-IsLevel l (inr (inr (inr e))) = rw e (level_error, refl, omega arith)

slog_level-ok : (l : String) (n : ℤ) → slog_level l ≡ ok n → IsLevel l
unfolding slog_level
slog_level-ok l n h = ground (
  arith,
  eq_iff l log_level_debug,
  eq_iff l log_level_info,
  eq_iff l log_level_warn,
  eq_iff l log_level_error,
)

with_level-ok :
    (cfg : LoggingConfig) (n : ℤ) (l : Logger)
    → with_level cfg (ok n) ≡ ok l
    → IsFormat cfg.format × (l.minimum ≡ n)
with_level-ok cfg n l h =
    ground (arith, eq_iff cfg.format log_format_json, eq_iff cfg.format log_format_text)

with_level_total :
    (cfg : LoggingConfig) (n : ℤ)
    → IsFormat cfg.format
    → (l : Logger) × (with_level cfg (ok n) ≡ ok l)
with_level_total cfg n (inl e) = rw e (_, refl)
with_level_total cfg n (inr e) = rw e (_, refl)

with_level-built :
    (cfg : LoggingConfig) (r : Result LoggingError ℤ) (l : Logger)
    → slog_level cfg.level ≡ r
    → with_level cfg r ≡ ok l
    → IsLevel cfg.level × IsFormat cfg.format × (enabled l level_error ≡ true)
with_level-built cfg (err e) l s h = ground arith
with_level-built cfg (ok n) l s h =
    let v : IsLevel cfg.level = slog_level-ok cfg.level n s in
    let (m, d, b) = level_of-IsLevel cfg.level v in
    let (f, e) = with_level-ok cfg n l h in (v, f, ground (arith, sym d ∙ s))

-- What is built is built from a known level and format, and it lets the lines of level ERROR through.
pub new-built :
    (cfg : LoggingConfig) (l : Logger)
    → new cfg ≡ ok l
    → IsLevel cfg.level × IsFormat cfg.format × (enabled l level_error ≡ true)
unfolding new new_with_writer
new-built cfg l h = with_level-built cfg (slog_level cfg.level) l refl h

-- A known level and a known format always give a logger.
pub new_total :
    (cfg : LoggingConfig)
    → IsLevel cfg.level
    → IsFormat cfg.format
    → (l : Logger) × (new cfg ≡ ok l)
unfolding new new_with_writer
new_total cfg v f = let (n, e, b) = level_of-IsLevel cfg.level v in rw e (with_level_total cfg n f)

-- The logger of a context is the one put in last, whatever other values were put in after it, and a
-- context without a logger has the one that discards.
pub from_context_last {ℓ} :
    {V : Type ℓ} (later earlier : List (ContextValue V)) (l : Logger)
    → has_logger later ≡ false
    → (from_context (later ++ with_context earlier l) ≡ l) × (from_context later ≡ discard)
unfolding with_context from_context
from_context_last [] earlier l h = (refl, refl)
from_context_last (under_ctx_key k ∷ later) earlier l h = ground arith
from_context_last (under_other_key v ∷ later) earlier l h = from_context_last later earlier l h

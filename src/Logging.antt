-- ===== src/Logging.antt =====
-- internal/logging/logging.go. A logger is its handler's kind and its least level; SHA-256 is the
-- parameter of `redact`.
pub mod Levels
pub mod Redaction
mod Examples
use text.Mathlib.Text.{◌==◌ as str_eq}
use bitblocker.Base.{
  ℕ, ◌+◌, ◌/◌, ◌%◌, String, Bool, true, false, Option, none, some, List, [], ◌∷◌, ◌++◌, null, ltb,
  if◌then◌else◌,
}
use bitblocker.Base.Int.{ℤ, pos, negsuc, ltb_ℤ}
use bitblocker.Base.Result.{Result, ok, err}
use bitblocker.Config.{
  LoggingConfig, codes, log_level_debug, log_level_info, log_level_warn, log_level_error,
  log_format_json, log_format_text,
}

-- The levels of log/slog.
abbrev pub level_debug : ℤ
level_debug = negsuc 3

abbrev pub level_info : ℤ
level_info = pos 0

abbrev pub level_warn : ℤ
level_warn = pos 4

abbrev pub level_error : ℤ
level_error = pos 8

-- The handler of a logger: JSON or text on the writer, or text on `io.Discard`.
pub data Handler : Type 0 where
  json_handler text_handler discard_handler : Handler

pub record Logger : Type 0 where
  pub handler : Handler
  pub minimum : ℤ

pub data LoggingError : Type 0 where
  unsupported_level unsupported_format : String → LoggingError

unfoldable pub slog_level : String → Result LoggingError ℤ
slog_level l =
    if str_eq l log_level_debug
    then ok level_debug
    else if str_eq l log_level_info
    then ok level_info
    else if str_eq l log_level_warn
    then ok level_warn
    else if str_eq l log_level_error
    then ok level_error
    else err (unsupported_level l)

-- The switch over the format, below the level's error return.
abbrev pub with_level : LoggingConfig → Result LoggingError ℤ → Result LoggingError Logger
with_level cfg (err e) = err e
with_level cfg (ok level) =
    if str_eq cfg.format log_format_json
    then ok (record { handler = json_handler; minimum = level })
    else if str_eq cfg.format log_format_text
    then ok (record { handler = text_handler; minimum = level })
    else err (unsupported_format cfg.format)

unfoldable pub new_with_writer : LoggingConfig → Result LoggingError Logger
new_with_writer cfg = with_level cfg (slog_level cfg.level)

-- `New`: the writer is stderr.
unfoldable pub new : LoggingConfig → Result LoggingError Logger
unfolding new_with_writer
new cfg = new_with_writer cfg

-- `Logger.Enabled`.
abbrev pub enabled : Logger → ℤ → Bool
enabled l level = if ltb_ℤ level l.minimum then false else true

-- `slog.NewTextHandler(io.Discard, nil)` has the level of the zero `HandlerOptions`.
abbrev pub discard : Logger
discard = record { handler = discard_handler; minimum = level_info }

-- A context is the values put into it, the last first: a logger under `ctxKey`, or a value under some
-- other key.
pub data ContextValue {ℓ} (V : Type ℓ) : Type ℓ where
  under_ctx_key : Logger → ContextValue V
  under_other_key : V → ContextValue V

module _ {ℓ} {V : Type ℓ} where
  unfoldable pub with_context : List (ContextValue V) → Logger → List (ContextValue V)
  with_context ctx l = under_ctx_key l ∷ ctx

  unfoldable pub from_context : List (ContextValue V) → Logger
  from_context [] = discard
  from_context (under_ctx_key l ∷ ctx) = l
  from_context (under_other_key v ∷ ctx) = from_context ctx

-- A digit of `hex.EncodeToString`.
abbrev pub hex_digit : ℕ → ℕ
hex_digit d = if ltb d 10 then 48 + d else 87 + d

unfoldable pub hex : List ℕ → List ℕ
hex [] = []
hex (b ∷ bs) = hex_digit (b / 16) ∷ hex_digit (b % 16) ∷ hex bs

abbrev pub first_four : List ℕ → List ℕ
first_four (a ∷ b ∷ c ∷ d ∷ _) = a ∷ b ∷ c ∷ d ∷ []
first_four bs = bs

abbrev pub opening : List ℕ
opening = 91 ∷ 114 ∷ 101 ∷ 100 ∷ 97 ∷ 99 ∷ 116 ∷ 101 ∷ 100 ∷ 58 ∷ []

-- `Redact`, with the bytes of the text and a hash.
unfoldable pub redact : (List ℕ → List ℕ) → List ℕ → List ℕ
unfolding hex
redact sha256 s = if null s then [] else opening ++ (hex (first_four (sha256 s)) ++ 93 ∷ [])

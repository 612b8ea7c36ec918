-- ===== src/Logging/Examples.antt =====
-- Logger configurations and texts on which the theorems about logging are applied.
use bitblocker.Base.{ℕ, ◌≡◌, ◌≢◌, ◌↔◌, refl, List, [], ◌∷◌, length, arith, All, ◌<◌}
use bitblocker.Base.Result.{ok}
use bitblocker.Config.{LoggingConfig}
use bitblocker.Logging.{
  Logger, new, new_with_writer, slog_level, level_warn, text_handler, redact, first_four,
}
use bitblocker.Logging.Redaction.{redact_tells}

abbrev warn_text : LoggingConfig
warn_text = record { level = "warn"; format = "text" }

abbrev built : Logger
built = record { handler = text_handler; minimum = level_warn }

logger_of_warn : new warn_text ≡ ok built
unfolding new new_with_writer slog_level
logger_of_warn = refl

-- A hash of 32 bytes that tells the shortest texts apart.
abbrev zeros : List ℕ
zeros =
    0 ∷ 0 ∷ 0 ∷ 0 ∷ 0 ∷ 0 ∷ 0 ∷ 0 ∷ 0 ∷ 0 ∷ 0 ∷ 0 ∷ 0 ∷ 0 ∷ 0 ∷ 0 ∷ 0 ∷ 0 ∷ 0 ∷ 0 ∷ 0 ∷ 0 ∷ 0 ∷ 0
    ∷ 0 ∷ 0 ∷ 0 ∷ 0 ∷ []

abbrev hash : List ℕ → List ℕ
hash [] = 1 ∷ 2 ∷ 3 ∷ 4 ∷ zeros
hash (c ∷ []) = 171 ∷ 0 ∷ 16 ∷ 255 ∷ zeros
hash (c ∷ d ∷ s) = 171 ∷ 1 ∷ 16 ∷ 255 ∷ zeros

hash_bytes : (s : List ℕ) → All (λ b. b < 256) (hash s)
hash_bytes [] = omega arith
hash_bytes (c ∷ []) = omega arith
hash_bytes (c ∷ d ∷ s) = omega arith

hash_size : (s : List ℕ) → length (hash s) ≡ 32
hash_size [] = refl
hash_size (c ∷ []) = refl
hash_size (c ∷ d ∷ s) = refl

abbrev secret : List ℕ
secret = 104 ∷ 105 ∷ []

secret_given : secret ≢ []
secret_given h = ground arith

redact_tells_example :
    (redact hash [] ≡ [])
    × (length (redact hash secret) ≡ 19)
    × ((redact hash secret ≡ redact hash secret)
        ↔ (first_four (hash secret) ≡ first_four (hash secret)))
redact_tells_example =
    redact_tells hash hash_bytes hash_size secret secret secret_given secret_given

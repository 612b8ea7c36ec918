-- ===== src/Scheduler.antt =====
-- internal/scheduler/scheduler.go. What the scheduler waits for is an argument: whether the context
-- is cancelled, what a refresh returns, whether a blocklist is ready, and whether a sleep is cut
-- short, each at the attempt at which the code asks.
pub mod Backoff
pub mod ColdStart
pub mod Running
mod Examples
use text.Mathlib.Text.{◌==◌ as str_eq}
use bitblocker.Base.{
  ℕ, zero, suc, ◌+◌, ◌*◌, String, Bool, true, false, not, ◌&&◌, ◌||◌, Option, none, some, List, [],
  ◌∷◌, leb, if◌then◌else◌,
}
use bitblocker.Base.Int.{ℤ, pos, ltb_ℤ, shl_i64}
use bitblocker.Base.Result.{Result, ok, err}

abbrev pub second : ℕ
second = 1000000000

abbrev pub default_cold_start_max_attempts : ℤ
default_cold_start_max_attempts = pos 8

abbrev pub default_cold_start_base_delay : ℤ
default_cold_start_base_delay = pos (2 * second)

abbrev pub default_cold_start_max_delay : ℤ
default_cold_start_max_delay = pos (5 * (60 * second))

-- `RetryPolicy`; a delay is a number of nanoseconds.
pub record RetryPolicy : Type 0 where
  pub max_attempts : ℤ
  pub base_delay : ℤ
  pub max_delay : ℤ

-- `x <= 0`.
abbrev pub not_positive : ℤ → Bool
not_positive x = ltb_ℤ x (pos 1)

unfoldable pub with_defaults : RetryPolicy → RetryPolicy
with_defaults p = record {
  max_attempts =
      if not_positive p.max_attempts then default_cold_start_max_attempts else p.max_attempts;
  base_delay = if not_positive p.base_delay then default_cold_start_base_delay else p.base_delay;
  max_delay = if not_positive p.max_delay then default_cold_start_max_delay else p.max_delay;
}

unfoldable pub backoff : RetryPolicy → ℕ → ℤ
backoff p attempt =
    let d = shl_i64 p.base_delay attempt in
    if leb 62 attempt
    then p.max_delay
    else if not_positive d || ltb_ℤ p.max_delay d
    then p.max_delay
    else d

-- `Options`; of the two functions and the logger the constructor asks only whether they are nil.
pub record Options : Type 0 where
  pub schedule : String
  pub timeout : ℤ
  pub refresh_given : Bool
  pub ready_given : Bool
  pub logger_given : Bool
  pub cold_start : RetryPolicy

pub record Scheduler : Type 0 where
  pub schedule : String
  pub timeout : ℤ
  pub cold_start : RetryPolicy

pub data NewError : Type 0 where
  schedule_required timeout_not_positive refresh_required ready_required logger_required : NewError

-- `newScheduler`.
unfoldable pub new_scheduler : Options → Result NewError Scheduler
unfolding with_defaults
new_scheduler o =
    if str_eq o.schedule ""
    then err schedule_required
    else if not_positive o.timeout
    then err timeout_not_positive
    else if not o.refresh_given
    then err refresh_required
    else if not o.ready_given
    then err ready_required
    else if not o.logger_given
    then err logger_required
    else ok (record {
      schedule = o.schedule;
      timeout = o.timeout;
      cold_start = with_defaults o.cold_start;
    })

-- What the loop meets at each attempt.
pub record World : Type 0 where
  pub cancelled : ℕ → Bool
  pub refresh_fails : ℕ → Bool
  pub ready : ℕ → Bool
  pub sleep_cut : ℕ → Bool

-- The log lines of the cold start; attempts are counted from 1, as in the log.
pub data Line : Type 0 where
  cached_active : Line
  budget_exhausted : (attempts : ℕ) → Line
  retrying : (attempt : ℕ) (delay : ℤ) → Line

-- How the loop ended, how often it refreshed, and what it logged.
pub data Ending : Type 0 where
  interrupted refreshed served_by_cache gave_up : Ending

pub record Report : Type 0 where
  pub ending : Ending
  pub refreshes : ℕ
  pub lines : List Line

abbrev pub report : Ending → ℕ → List Line → Report
report e n ls = record { ending = e; refreshes = n; lines = ls }

abbrev pub log_line : Line → Option Report → Option Report
log_line l none = none
log_line l (some r) = some (record r { lines = l ∷ r.lines })

-- `attempt + 1 >= MaxAttempts`.
abbrev pub is_last : RetryPolicy → ℕ → Bool
is_last p attempt = not (ltb_ℤ (pos (attempt + 1)) p.max_attempts)

-- The loop of `runColdStart` from an attempt on, with fuel; `none` means that the fuel ran out.
unfoldable pub cold_start_from : ℕ → RetryPolicy → World → ℕ → Option Report
cold_start_from zero p w attempt = none
cold_start_from (suc fuel) p w attempt =
    let delay = backoff p attempt in
    let next = log_line (retrying (attempt + 1) delay) (cold_start_from fuel p w (suc attempt)) in
    let cut = some (report interrupted (attempt + 1) (retrying (attempt + 1) delay ∷ [])) in
    if w.cancelled attempt
    then some (report interrupted attempt [])
    else if not (w.refresh_fails attempt)
    then some (report refreshed (attempt + 1) [])
    else if w.ready attempt
    then some (report served_by_cache (attempt + 1) (cached_active ∷ []))
    else if is_last p attempt
    then some (report gave_up (attempt + 1) (budget_exhausted (attempt + 1) ∷ []))
    else if w.sleep_cut attempt
    then cut
    else next

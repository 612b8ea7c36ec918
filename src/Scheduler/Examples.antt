-- ===== src/Scheduler/Examples.antt =====
-- Policies and worlds on which the theorems about the scheduler are applied.
use bitblocker.Base.{ℕ, ◌+◌, ◌-◌, ◌*◌, ◌^◌, ◌<◌, ◌≤◌, min, ◌≡◌, true, false, some, arith}
use bitblocker.Base.Int.{pos, pos_part}
use bitblocker.Scheduler.{RetryPolicy, World, Report, with_defaults, backoff, cold_start_from}
use bitblocker.Scheduler.Backoff.{policy, backoff_exact, backoff_wraps}
use bitblocker.Scheduler.ColdStart.{Stops, cold_start_total}

abbrev unset : RetryPolicy
unset = record { max_attempts = pos 0; base_delay = pos 0; max_delay = pos 0 }

backoff_exact_example : backoff (policy (pos 8) 2000 300000) 3 ≡ pos (min (2000 * 2 ^ 3) 300000)
backoff_exact_example =
    backoff_exact (pos 8) 2000 300000 3 (omega arith) (omega arith) (omega arith)

backoff_wraps_example :
    (backoff (policy (pos 9) (2 ^ (64 - 40) + 1) (2 ^ 50)) 40 ≡ pos (2 ^ 40))
    × (2 ^ 50 < (2 ^ (64 - 40) + 1) * 2 ^ 40)
backoff_wraps_example =
    backoff_wraps (pos 9) 40 (2 ^ 50) (omega arith) (omega arith) (omega arith) (omega arith)

-- Every refresh fails, and nothing interrupts.
abbrev outage : World
outage = record {
  cancelled = λ i. false;
  refresh_fails = λ i. true;
  ready = λ i. false;
  sleep_cut = λ i. false;
}

budget : pos_part (with_defaults unset).max_attempts ≤ 8
unfolding with_defaults
budget = omega arith

cold_start_total_example :
    (r : Report) × (n : ℕ) × (k : ℕ) × (cold_start_from 8 (with_defaults unset) outage 0 ≡ some r)
    × Stops (with_defaults unset) outage 0 n k r
    × (k < pos_part (with_defaults unset).max_attempts)
cold_start_total_example = cold_start_total unset outage 8 budget

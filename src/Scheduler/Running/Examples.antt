-- ===== src/Scheduler/Running/Examples.antt =====
-- A cron, and runs of the scheduler on which the theorems about `Run` are applied.
use bitblocker.Base.{
  ℕ, ◌+◌, ◌*◌, ◌≤◌, String, ◌≡◌, refl, true, false, not, ◌&&◌, ◌⊎◌, Option, none, some, List, map,
  ◌==◌, arith,
}
use bitblocker.Base.Int.{pos}
use bitblocker.Scheduler.{Scheduler, Line, refreshed, report, cold_start_from}
use bitblocker.Scheduler.Running.Met.{met, attempts, ended}
use bitblocker.Scheduler.Running.{
  Cron, IsCron, Running, cold, cold_over, returned, begin_run, attempt, refreshes, fails, wakes,
  start, add_fails, stop, drain, fires, job_fails, Reach, begun, cancels, steps,
}
use bitblocker.Scheduler.Running.Refreshes.{cold_refreshes, one_refresh, scheduler_result}
use bitblocker.Scheduler.Running.ColdRun.{cold_run}
use bitblocker.Scheduler.Running.Stopping.{moves, HasReturned, CanMove, scheduler_stops}

abbrev cron : Cron
cron = record { add = λ e. none; starts = λ s n. not s && n == 0; drained = λ n. n == 0 }

cron-IsCron : IsCron cron
cron-IsCron = record {
  skips = λ s n h. ground arith;
  stops = λ n. refl;
  waits = λ n h. ground arith;
  lets_go = refl;
}

abbrev daily : Scheduler
daily = record {
  schedule = "0 3 * * *";
  timeout = pos 30000000000;
  cold_start = record { max_attempts = pos 8; base_delay = pos 2000; max_delay = pos 300000 };
}

-- The first refresh fails, and the second one succeeds.
cold_start : (t : Running) × Reach cron daily false t × (t.place ≡ cold_over)
unfolding begin_run
cold_start = (
  _,
  steps _ _ _
      (steps _ _ _
        (steps _ _ _ (steps _ _ _ (steps _ _ _ begun (attempt 0 refl refl)) (fails 0 refl refl))
          (wakes 0 refl))
        (attempt 1 refl refl))
      (refreshes 1 refl),
  refl,
)

-- The cron runs a job, which ends after the cancellation; then `Run` returns.
stopped_run : (t : Running) × Reach cron daily true t × (t.place ≡ returned none)
unfolding begin_run
stopped_run = (
  _,
  steps _ _ _
      (steps _ _ _
        (steps _ _ _
          (cancels _ (
            steps _ _ _
              (steps _ _ _
                (steps _ _ _ (steps _ _ _ begun (attempt 0 refl refl)) (refreshes 0 refl))
                (start refl refl refl))
              (fires refl refl)))
          (stop refl refl))
        (job_fails 0 refl))
      (drain refl refl),
  refl,
)

one_refresh_example :
    (cold_refreshes stopped_run.0.place + stopped_run.0.jobs ≤ 1)
    × ((r : Option String) → stopped_run.0.place ≡ returned r → stopped_run.0.jobs ≡ 0)
one_refresh_example = one_refresh cron daily cron-IsCron true stopped_run.0 stopped_run.1

-- A cron that refuses every schedule.
abbrev refusing : Cron
refusing = record cron { add = λ e. some "bad schedule" }

refusing-IsCron : IsCron refusing
refusing-IsCron = record {
  skips = cron-IsCron.skips;
  stops = cron-IsCron.stops;
  waits = cron-IsCron.waits;
  lets_go = cron-IsCron.lets_go;
}

refused_run :
    (t : Running) × Reach refusing daily false t × (t.place ≡ returned (some "bad schedule"))
unfolding begin_run
refused_run = (
  _,
  steps _ _ _ (steps _ _ _ (steps _ _ _ begun (attempt 0 refl refl)) (refreshes 0 refl))
      (add_fails "bad schedule" refl refl refl),
  refl,
)

scheduler_result_example :
    (◌≡◌ {A = Option String} (some "bad schedule") none → false ≡ true)
    × ((e : String)
        → ◌≡◌ {A = Option String} (some "bad schedule") (some e)
        → (refusing.add daily.schedule ≡ some e) × (refused_run.0.is_started ≡ false))
scheduler_result_example =
    scheduler_result refusing daily refusing-IsCron false refused_run.0 (some "bad schedule")
      refused_run.1 refused_run.2

cold_run_example :
    (ls : List Line) × (cold_start.0.log ≡ map cold ls)
    × (fuel : ℕ) × (cold_start_from fuel daily.cold_start (met false cold_start.0 cold_start.1) 0
        ≡ some (report refreshed 2 ls))
unfolding ended attempts cold_start begin_run
cold_run_example = cold_run cron daily false cold_start.0 cron-IsCron cold_start.1 cold_start.2

scheduler_stops_example :
    (moves cron daily true stopped_run.0 stopped_run.1 ≤ 3 * 8 + 6)
    × (true ≡ true → HasReturned stopped_run.0 ⊎ CanMove cron daily true stopped_run.0)
scheduler_stops_example = scheduler_stops cron daily true stopped_run.0 stopped_run.1 cron-IsCron

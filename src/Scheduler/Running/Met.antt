-- ===== src/Scheduler/Running/Met.antt =====
-- internal/scheduler/scheduler.go: what a run of `Run` has met in its cold start, read off its steps.
use bitblocker.Base.{ℕ, suc, ◌==◌, Bool, true, false, if◌then◌else◌}
use bitblocker.Scheduler.{
  Scheduler, World, Ending, interrupted, refreshed, served_by_cache, gave_up,
}
use bitblocker.Scheduler.Running.{
  Cron, Running, Step, give_in, attempt, refreshes, fails_ready, fails_last, fails, wakes, is_woken,
  leave, add_fails, start, stop, drain, fires, job_ends, job_fails, Reach, begun, cancels, steps,
}

-- The test of the context at the head of the attempt k, what its refresh and `ready` came to, and
-- whether the sleep behind it was cut short.
abbrev pub on_test : ℕ → Bool → World → World
on_test k c w = record w { cancelled = λ i. if i == k then c else w.cancelled i }

abbrev pub on_refresh : ℕ → (fails ready : Bool) → World → World
on_refresh k f r w = record w {
  refresh_fails = λ i. if i == k then f else w.refresh_fails i;
  ready = λ i. if i == k then r else w.ready i;
}

abbrev pub on_sleep : ℕ → Bool → World → World
on_sleep k c w = record w { sleep_cut = λ i. if i == k then c else w.sleep_cut i }

module _ {cron : Cron} {s : Scheduler} where
  -- The context enters as it is when the step is made.
  abbrev pub met_step : (c : Bool) (t u : Running) → Step cron s c t u → World → World
  met_step c t _ (give_in k h d) w = on_test k c w
  met_step c t _ (attempt k h d) w = on_test k c w
  met_step c t _ (refreshes k h) w = on_refresh k false false w
  met_step c t _ (fails_ready k h) w = on_refresh k true true w
  met_step c t _ (fails_last k h l) w = on_refresh k true false w
  met_step c t _ (fails k h l) w = on_refresh k true false w
  met_step c t _ (wakes k h) w = on_sleep k false w
  met_step c t _ (is_woken k h d) w = on_sleep k c w
  met_step c t _ (leave h d) w = w
  met_step c t _ (add_fails e h d a) w = w
  met_step c t _ (start h d a) w = w
  met_step c t _ (stop h d) w = w
  met_step c t _ (drain h d) w = w
  met_step c t _ (fires a d) w = w
  met_step c t _ (job_ends n j) w = w
  met_step c t _ (job_fails n j) w = w

  unfoldable pub met : (c : Bool) (t : Running) → Reach cron s c t → World
  met _ _ begun = record {
    cancelled = λ i. false;
    refresh_fails = λ i. false;
    ready = λ i. false;
    sleep_cut = λ i. false;
  }
  met _ _ (cancels t r) = met false t r
  met _ _ (steps c t u r x) = met_step c t u x (met c t r)

  -- The attempts that the cold start has made.
  abbrev pub counted : (c : Bool) (t u : Running) → Step cron s c t u → ℕ → ℕ
  counted c t _ (attempt k h d) n = suc n
  counted c t _ _ n = n

  unfoldable pub attempts : (c : Bool) (t : Running) → Reach cron s c t → ℕ
  attempts _ _ begun = 0
  attempts _ _ (cancels t r) = attempts false t r
  attempts _ _ (steps c t u r x) = counted c t u x (attempts c t r)

  -- How it ended, once it has.
  abbrev pub ending_by : (c : Bool) (t u : Running) → Step cron s c t u → Ending → Ending
  ending_by c t _ (give_in k h d) e = interrupted
  ending_by c t _ (is_woken k h d) e = interrupted
  ending_by c t _ (refreshes k h) e = refreshed
  ending_by c t _ (fails_ready k h) e = served_by_cache
  ending_by c t _ (fails_last k h l) e = gave_up
  ending_by c t _ _ e = e

  unfoldable pub ended : (c : Bool) (t : Running) → Reach cron s c t → Ending
  ended _ _ begun = interrupted
  ended _ _ (cancels t r) = ended false t r
  ended _ _ (steps c t u r x) = ending_by c t u x (ended c t r)

-- ===== src/Scheduler/Running/ColdRun.antt =====
-- internal/scheduler/scheduler.go: the steps of `runColdStart` against its loop as a function.
use mathlib.Core.List.{map-append, append-nil}
use bitblocker.Base.{
  ℕ, suc, ◌+◌, ◌≡◌, refl, sym, ap, subst, ◌∙◌, Bool, true, false, some, List, [], ◌∷◌, ◌++◌, map,
  arith,
}
use bitblocker.Scheduler.{
  Scheduler, RetryPolicy, World, Line, cached_active, budget_exhausted, retrying, backoff, Ending,
  report, cold_start_from,
}
use bitblocker.Scheduler.Running.{
  Cron, IsCron, Place, attempting, refreshing, sleeping, cold_over, waiting, draining, returned,
  Running, RunLine, cold, refresh_failed, begin_run, Step, give_in, attempt, refreshes, fails_ready,
  fails_last, fails, wakes, is_woken, leave, add_fails, start, stop, drain, fires, job_ends,
  job_fails, Reach, begun, cancels, steps,
}
use bitblocker.Scheduler.Running.Refreshes.{IsSound, Reach-IsSound}
use bitblocker.Scheduler.Running.Met.{met, met_step, counted, ending_by, attempts, ended}
use bitblocker.Scheduler.Running.Loop.{
  retry_lines, retry_lines-suc, WentOn, WentOn-on_test, WentOn-on_refresh, Comes, Failed,
  interrupted_at, refreshed_at, ready_at, last_at, woken_at, woke_at,
}

module _ (p : RetryPolicy) where
  told_more :
      (ls : List RunLine) (us : List Line) (l : Line)
      → ls ≡ map cold us
      → ls ++ cold l ∷ [] ≡ map cold (us ++ l ∷ [])
  told_more ls us l e = rw e (sym (map-append cold us (l ∷ [])))

  -- What is known at a place of the cold start, and behind it: the world that was met, the ending, the
  -- attempts made and the log.
  abbrev Known : World → Ending → ℕ → List RunLine → Place → Type 0
  Known w e n ls (attempting k) = WentOn p w k × (n ≡ k) × (ls ≡ map cold (retry_lines p 0 k))
  Known w e n ls (refreshing k) =
      WentOn p w k × (n ≡ k + 1) × (ls ≡ map cold (retry_lines p 0 k)) × (w.cancelled k ≡ false)
  Known w e n ls (sleeping k) =
      WentOn p w k × (n ≡ k + 1) × (ls ≡ map cold (retry_lines p 0 (suc k))) × Failed p w k
  Known w e n ls cold_over = (us : List Line) × (ls ≡ map cold us) × Comes p w e n us
  Known w e n ls _ = Unit

  same_log : (ls : List RunLine) (us : List Line) → ls ≡ map cold us → ls ++ [] ≡ map cold us
  same_log ls us e = append-nil ls ∙ e

module _ (cron : Cron) (s : Scheduler) where
  abbrev p : RetryPolicy
  p = s.cold_start

  -- No job of the cron runs before it is started.
  Known-job :
      (c : Bool) (t : Running) (w : World) (e : Ending) (n m : ℕ) (q : Place)
      → t.place ≡ q
      → t.jobs ≡ suc n
      → IsSound cron s c t
      → Known p w e m (t.log ++ refresh_failed ∷ []) q
  Known-job c t w e n m (attempting k) h j v = absurd (ground (arith, v.agrees, v.unstarted))
  Known-job c t w e n m (refreshing k) h j v = absurd (ground (arith, v.agrees, v.unstarted))
  Known-job c t w e n m (sleeping k) h j v = absurd (ground (arith, v.agrees, v.unstarted))
  Known-job c t w e n m cold_over h j v = absurd (ground (arith, v.agrees, v.unstarted))
  Known-job c t w e n m waiting h j v = tt
  Known-job c t w e n m draining h j v = tt
  Known-job c t w e n m (returned r) h j v = tt

  Step-Known :
      (c : Bool) (t u : Running) (x : Step cron s c t u) (w : World) (e : Ending) (n : ℕ)
      → IsSound cron s c t
      → Known p w e n t.log t.place
      → Known p (met_step c t u x w) (ending_by c t u x e) (counted c t u x n) u.log u.place
  Step-Known c t _ (give_in k h d) w e n v o =
      let (on, made, logged) = subst (Known p w e n t.log) h o in
      (retry_lines p 0 k, same_log p _ _ logged, rw (d, made) (interrupted_at p w k on))
  Step-Known c t _ (attempt k h d) w e n v o =
      let (on, made, logged) = subst (Known p w e n t.log) h o in
      (WentOn-on_test p w k c on, omega (arith, made), same_log p _ _ logged, ground (arith, d))
  Step-Known c t _ (refreshes k h) w e n v o =
      let (on, made, logged, tested) = subst (Known p w e n t.log) h o in
      (retry_lines p 0 k, same_log p _ _ logged, rw made (refreshed_at p w k on tested))
  Step-Known c t _ (fails_ready k h) w e n v o =
      let (on, made, logged, tested) = subst (Known p w e n t.log) h o in
      (_, told_more p _ _ cached_active logged, rw made (ready_at p w k on tested))
  Step-Known c t _ (fails_last k h l) w e n v o =
      let (on, made, logged, tested) = subst (Known p w e n t.log) h o in
      (_, told_more p _ _ (budget_exhausted (k + 1)) logged, rw made (last_at p w k on tested l))
  Step-Known c t _ (fails k h l) w e n v o =
      let (on, made, logged, tested) = subst (Known p w e n t.log) h o in
      let line = retrying (k + 1) (backoff p k) in
      (
        WentOn-on_refresh p w k true false on,
        made,
        told_more p _ _ line logged ∙ ap (map cold) (sym (retry_lines-suc p k 0 k (omega arith))),
        record { tested = tested; failed = ground arith; unready = ground arith; more = l },
      )
  Step-Known c t _ (wakes k h) w e n v o =
      let (on, made, logged, failed) = subst (Known p w e n t.log) h o in
      (
        λ j lt. woke_at p w k on failed j (omega arith),
        made,
        same_log p _ _ logged ∙ ap (λ n. map cold (retry_lines p 0 n)) (omega arith),
      )
  Step-Known c t _ (is_woken k h d) w e n v o =
      let (on, made, logged, failed) = subst (Known p w e n t.log) h o in
      (retry_lines p 0 (suc k), same_log p _ _ logged, rw (d, made) (woken_at p w k on failed))
  Step-Known c t _ (leave h d) w e n v o = tt
  Step-Known c t _ (add_fails x h d a) w e n v o = tt
  Step-Known c t _ (start h d a) w e n v o = tt
  Step-Known c t _ (stop h d) w e n v o = tt
  Step-Known c t _ (drain h d) w e n v o = tt
  Step-Known c t _ (fires a d) w e n v o = o
  Step-Known c t _ (job_ends m j) w e n v o = o
  Step-Known c t _ (job_fails m j) w e n v o = Known-job c t w e m n t.place refl j v

  Reach-Known :
      (c : Bool) (t : Running) (r : Reach cron s c t)
      → IsCron cron
      → Known p (met c t r) (ended c t r) (attempts c t r) t.log t.place
  unfolding begin_run retry_lines met ended attempts
  Reach-Known _ _ begun law = (λ j lt. absurd (omega arith), refl, refl)
  Reach-Known _ _ (cancels t r) law = Reach-Known false t r law
  Reach-Known _ _ (steps c t u r x) law =
      Step-Known c t u x (met c t r) (ended c t r) (attempts c t r) (Reach-IsSound cron s law c t r)
        (Reach-Known c t r law)

  -- A run of the scheduler that gets behind its cold start has gone through the loop of `runColdStart`:
  -- in the world that the run has met, where the context is the one at each test and at each sleep that
  -- is cut short, the loop as a function returns, with some fuel, the ending of the run, the number of
  -- attempts that it made, and the lines that it logged. Of the cron this takes what it documents of
  -- `SkipIfStillRunning` and `Stop`.
  pub cold_run :
      (c : Bool) (t : Running)
      → IsCron cron
      → (r : Reach cron s c t) → t.place ≡ cold_over
      → (ls : List Line) × (t.log ≡ map cold ls)
        × (fuel : ℕ) × (cold_start_from fuel s.cold_start (met c t r) 0
            ≡ some (report (ended c t r) (attempts c t r) ls))
  cold_run c t law r h =
      let known = Reach-Known c t r law in
      let (ls, logged, run) =
        subst (Known p (met c t r) (ended c t r) (attempts c t r) t.log) h known in
      (ls, logged, run.0, run.1)

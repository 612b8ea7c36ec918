-- ===== src/Scheduler/Running/Stopping.antt =====
-- internal/scheduler/scheduler.go: `Run` comes to an end once its context is cancelled.
use bitblocker.Base.{
  if◌then◌else◌, ℕ, zero, suc, ◌+◌, ◌-◌, ◌*◌, ◌≤◌, ◌<◌, String, ◌≡◌, refl, Bool, true, false,
  Option, arith, inl, inr, ◌⊎◌,
}
use bitblocker.Base.Int.{pos_part}
use bitblocker.Scheduler.{Scheduler}
use bitblocker.Scheduler.Running.{
  Cron, IsCron, Place, attempting, refreshing, sleeping, cold_over, waiting, draining, returned,
  Running, begin_run, Step, give_in, attempt, refreshes, fails_ready, fails_last, fails, wakes,
  is_woken, leave, add_fails, start, stop, drain, fires, job_ends, job_fails, Reach, begun, cancels,
  steps,
}
use bitblocker.Scheduler.Running.Refreshes.{IsSound, Reach-IsSound}

abbrev pub HasReturned : Running → Type 0
HasReturned t = (r : Option String) × (t.place ≡ returned r)

module _ (cron : Cron) (s : Scheduler) where
  abbrev pub budget : ℕ
  budget = pos_part s.cold_start.max_attempts

  -- The moves that `Run` has left.
  abbrev pub place_rank : Place → ℕ
  place_rank (attempting k) = 3 * (budget - k) + 6
  place_rank (refreshing k) = 3 * (budget - k) + 5
  place_rank (sleeping k) = 3 * (budget - k) + 4
  place_rank cold_over = 4
  place_rank waiting = 3
  place_rank draining = 1
  place_rank (returned r) = 0

  abbrev pub rank : Running → ℕ
  rank t = place_rank t.place + (if t.is_stopped then t.jobs else 0)

  -- A retry is within the budget.
  abbrev pub InBudget : Place → Type 0
  InBudget (sleeping k) = k + 1 < budget
  InBudget _ = Unit

  -- A move is a step of `Run`, or the end of a job that `Stop` waits for.
  abbrev pub move_of : (c : Bool) (t u : Running) → Step cron s c t u → ℕ
  move_of c t _ (give_in k p d) = 1
  move_of c t _ (attempt k p d) = 1
  move_of c t _ (refreshes k p) = 1
  move_of c t _ (fails_ready k p) = 1
  move_of c t _ (fails_last k p l) = 1
  move_of c t _ (fails k p l) = 1
  move_of c t _ (wakes k p) = 1
  move_of c t _ (is_woken k p d) = 1
  move_of c t _ (leave p d) = 1
  move_of c t _ (add_fails e p d a) = 1
  move_of c t _ (start p d a) = 1
  move_of c t _ (stop p d) = 1
  move_of c t _ (drain p d) = 1
  move_of c t _ (fires a d) = 0
  move_of c t _ (job_ends n j) = if t.is_stopped then 1 else 0
  move_of c t _ (job_fails n j) = if t.is_stopped then 1 else 0

  pub Step-rank :
      (c : Bool) (t u : Running) (x : Step cron s c t u)
      → IsCron cron
      → IsSound cron s c t
      → InBudget t.place
      → InBudget u.place × (move_of c t u x + rank u ≤ rank t)
  Step-rank c t _ (give_in k p d) law v b = ground arith
  Step-rank c t _ (attempt k p d) law v b = ground arith
  Step-rank c t _ (refreshes k p) law v b = ground arith
  Step-rank c t _ (fails_ready k p) law v b = ground arith
  Step-rank c t _ (fails_last k p l) law v b = ground arith
  Step-rank c t _ (fails k p l) law v b = ground arith
  Step-rank c t _ (wakes k p) law v b = ground arith
  Step-rank c t _ (is_woken k p d) law v b = ground arith
  Step-rank c t _ (leave p d) law v b = ground arith
  Step-rank c t _ (add_fails e p d a) law v b = ground arith
  Step-rank c t _ (start p d a) law v b = ground arith
  Step-rank c t _ (stop p d) law v b = ground arith
  Step-rank c t _ (drain p d) law v b = ground arith
  Step-rank c t _ (fires a d) law v b = ground (arith, law.stops t.jobs)
  Step-rank c t _ (job_ends n j) law v b = ground arith
  Step-rank c t _ (job_fails n j) law v b = ground arith

  abbrev pub CanMove : Bool → Running → Type 0
  CanMove c t = (u : Running) × (x : Step cron s c t u) × (move_of c t u x ≡ 1)

  pub progress :
      (c : Bool) (t : Running) (p : Place) (jobs : ℕ)
      → IsCron cron
      → t.place ≡ p
      → t.jobs ≡ jobs
      → c ≡ true
      → IsSound cron s c t
      → HasReturned t ⊎ CanMove c t
  progress c t (attempting k) n law hp hj d v = inr (_, give_in k hp d, refl)
  progress c t (refreshing k) n law hp hj d v = inr (_, refreshes k hp, refl)
  progress c t (sleeping k) n law hp hj d v = inr (_, is_woken k hp d, refl)
  progress c t cold_over n law hp hj d v = inr (_, leave hp d, refl)
  progress c t waiting n law hp hj d v = inr (_, stop hp d, refl)
  progress c t draining zero law hp hj d v = inr (_, drain hp (rw hj law.lets_go), refl)
  progress c t draining (suc n) law hp hj d v = inr (_, job_ends n hj, ground (arith, v.agrees))
  progress c t (returned r) n law hp hj d v = inl (r, hp)

  pub moves : (c : Bool) (t : Running) → Reach cron s c t → ℕ
  moves _ _ begun = 0
  moves _ _ (cancels t r) = moves false t r
  moves _ _ (steps c t u r x) = move_of c t u x + moves c t r

  pub Reach-rank :
      (c : Bool) (t : Running) (r : Reach cron s c t)
      → IsCron cron
      → InBudget t.place × (moves c t r + rank t ≤ 3 * budget + 6)
  unfolding moves begin_run
  Reach-rank _ _ begun law = ground arith
  Reach-rank _ _ (cancels t r) law = Reach-rank false t r law
  Reach-rank _ _ (steps c t u r x) law =
      let (b, h) = Reach-rank c t r law in
      let (b', k) = Step-rank c t u x law (Reach-IsSound cron s law c t r) b in (b', omega arith)

  -- Of a run of the scheduler at most `3 * max_attempts + 6` steps are moves, that is, steps of `Run`
  -- or ends of jobs after `Stop`, and once its context is cancelled a move is possible until `Run` has
  -- returned. So `Run` returns after a cancellation, whatever the cron does meanwhile, as soon as these
  -- steps get their turn; of the cron this takes what it documents of `SkipIfStillRunning` and `Stop`.
  pub scheduler_stops :
      (c : Bool) (t : Running) (r : Reach cron s c t)
      → IsCron cron
      → (moves c t r ≤ 3 * budget + 6) × (c ≡ true → HasReturned t ⊎ CanMove c t)
  scheduler_stops c t r law =
      let (b, h) = Reach-rank c t r law in
      (
        omega arith,
        λ e. progress c t t.place t.jobs law refl refl e (Reach-IsSound cron s law c t r),
      )

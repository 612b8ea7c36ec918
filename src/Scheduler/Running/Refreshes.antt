-- ===== src/Scheduler/Running/Refreshes.antt =====
-- internal/scheduler/scheduler.go: which refreshes of a run of `Run` are under way at once, and what it
-- returns.
use bitblocker.Base.{
  ℕ, ◌+◌, ◌≤◌, String, ◌≡◌, Bool, true, false, Option, none, some, arith, Option-cases, inl, inr,
}
use bitblocker.Scheduler.{Scheduler}
use bitblocker.Scheduler.Running.{
  Cron, IsCron, Place, refreshing, waiting, draining, returned, Running, begin_run, Step, give_in,
  attempt, refreshes, fails_ready, fails_last, fails, wakes, is_woken, leave, add_fails, start,
  stop, drain, fires, job_ends, job_fails, Reach, begun, cancels, steps,
}

-- The refresh of the cold start that is under way.
abbrev pub cold_refreshes : Place → ℕ
cold_refreshes (refreshing k) = 1
cold_refreshes _ = 0

abbrev is_waiting : Place → Bool
is_waiting waiting = true
is_waiting _ = false

abbrev is_draining : Place → Bool
is_draining draining = true
is_draining _ = false

-- The error that `AddFunc` gave, if `Run` has returned; nil only after a cancellation, with no job left.
abbrev Agrees : Cron → Scheduler → Bool → Running → Place → Type 0
Agrees cron s c t (returned (some e)) = (cron.add s.schedule ≡ some e) × (t.is_started ≡ false)
Agrees cron s c t (returned none) = (c ≡ true) × (t.jobs ≡ 0) × (t.is_started ≡ t.is_stopped)
Agrees cron s c t waiting = (t.is_started ≡ true) × (t.is_stopped ≡ false)
Agrees cron s c t draining = (t.is_started ≡ true) × (t.is_stopped ≡ true) × (c ≡ true)
Agrees cron s c t _ = (t.is_started ≡ false) × (t.is_stopped ≡ false)

pub record IsSound (cron : Cron) (s : Scheduler) (c : Bool) (t : Running) : Type 0 where
  pub one_job : t.jobs ≤ 1
  pub unstarted : t.is_started ≡ false → t.jobs ≡ 0
  pub agrees : Agrees cron s c t t.place

module _ (cron : Cron) (s : Scheduler) (law : IsCron cron) where
  Step-IsSound :
      (c : Bool) (t u : Running) → Step cron s c t u → IsSound cron s c t → IsSound cron s c u
  Step-IsSound c t _ (give_in k p d) v = ground arith
  Step-IsSound c t _ (attempt k p d) v = ground arith
  Step-IsSound c t _ (refreshes k p) v = ground arith
  Step-IsSound c t _ (fails_ready k p) v = ground arith
  Step-IsSound c t _ (fails_last k p l) v = ground arith
  Step-IsSound c t _ (fails k p l) v = ground arith
  Step-IsSound c t _ (wakes k p) v = ground arith
  Step-IsSound c t _ (is_woken k p d) v = ground arith
  Step-IsSound c t _ (leave p d) v = ground arith
  Step-IsSound c t _ (add_fails e p d a) v = ground arith
  Step-IsSound c t _ (start p d a) v = ground arith
  Step-IsSound c t _ (stop p d) v = ground arith
  Step-IsSound c t _ (drain p d) v = ground (arith, law.waits t.jobs d)
  Step-IsSound c t _ (fires a d) v =
      ground (arith, law.skips t.is_stopped t.jobs d, law.stops t.jobs)
  Step-IsSound c t _ (job_ends n j) v = ground arith
  Step-IsSound c t _ (job_fails n j) v = ground arith

  pub Reach-IsSound : (c : Bool) (t : Running) → Reach cron s c t → IsSound cron s c t
  unfolding begin_run
  Reach-IsSound _ _ begun = ground arith
  Reach-IsSound _ _ (cancels t r) = let v = Reach-IsSound false t r in ground arith
  Reach-IsSound _ _ (steps c t u r x) = Step-IsSound c t u x (Reach-IsSound c t r)

  -- At most one refresh is under way at any time of a run of the scheduler, the one of the cold start
  -- and the cron's jobs together, and none once `Run` has returned; of the cron this takes what it
  -- documents of `SkipIfStillRunning` and `Stop`.
  pub one_refresh :
      (c : Bool) (t : Running)
      → Reach cron s c t
      → (cold_refreshes t.place + t.jobs ≤ 1)
        × ((r : Option String) → t.place ≡ returned r → t.jobs ≡ 0)
  one_refresh c t x =
      let v = Reach-IsSound c t x in
      (
        ground (arith, v.agrees, v.unstarted),
        λ r p. elim (Option-cases r) [
          | inl e ↦ ground (arith, v.agrees)
          | inr (m, e) ↦ ground (arith, v.agrees, v.unstarted)
        ],
      )

  -- `Run` of the scheduler returns nil only after its context was cancelled, and an error only if
  -- `AddFunc` refuses the schedule with that error, in which case the cron was never started.
  pub scheduler_result :
      (c : Bool) (t : Running) (r : Option String)
      → Reach cron s c t
      → t.place ≡ returned r
      → (r ≡ none → c ≡ true)
        × ((e : String) → r ≡ some e → (cron.add s.schedule ≡ some e) × (t.is_started ≡ false))
  scheduler_result c t r x p =
      let v = Reach-IsSound c t x in
      (λ e. ground (arith, v.agrees), λ m e. ground (arith, v.agrees))

-- ===== src/Scheduler/Running.antt =====
-- internal/scheduler/scheduler.go: `Run`, with the cron's jobs beside it. A step is one event of `Run`
-- or of a job; the context is cancelled or not at each step. The cron is a parameter.
pub mod Refreshes
pub mod Met
pub mod Loop
pub mod ColdRun
pub mod Stopping
mod Examples
use bitblocker.Base.{
  ℕ, zero, suc, ◌+◌, String, ◌≡◌, Bool, true, false, not, ◌&&◌, Option, none, some, List, [], ◌∷◌,
  ◌++◌, null,
}
use bitblocker.Base.Int.{ℤ}
use bitblocker.Scheduler.{
  Scheduler, RetryPolicy, backoff, Line, cached_active, budget_exhausted, retrying, is_last,
}

-- What `Run` uses of `robfig/cron`: the error of `AddFunc`, whether a tick starts the job while so many
-- are running, before and after `Stop`, and whether the context of `Stop` is done while so many are.
pub record Cron : Type 0 where
  pub add : String → Option String
  pub starts : (is_stopped : Bool) (jobs : ℕ) → Bool
  pub drained : (jobs : ℕ) → Bool

-- The documented behaviour: `SkipIfStillRunning`, and a `Stop` which starts no job and waits for those
-- that run.
pub record IsCron (c : Cron) : Type 0 where
  pub skips : (is_stopped : Bool) (jobs : ℕ) → c.starts is_stopped jobs ≡ true → jobs ≡ 0
  pub stops : (jobs : ℕ) → c.starts true jobs ≡ false
  pub waits : (jobs : ℕ) → c.drained jobs ≡ true → jobs ≡ 0
  pub lets_go : c.drained 0 ≡ true

-- Where `Run` stands: in the loop of `runColdStart`, at the head, in `refreshOnce` or in `sleep`; behind
-- it; at `<-ctx.Done()`; at `<-c.Stop().Done()`; or it has returned its error.
pub data Place : Type 0 where
  attempting refreshing sleeping : (attempt : ℕ) → Place
  cold_over waiting draining : Place
  returned : Option String → Place

pub data RunLine : Type 0 where
  cold : Line → RunLine
  started refresh_failed stopped : RunLine

pub record Running : Type 0 where
  pub place : Place
  pub is_started : Bool
  pub is_stopped : Bool
  -- the calls of the cron's job that have not come back
  pub jobs : ℕ
  pub log : List RunLine

unfoldable pub begin_run : Running
begin_run = record {
  place = attempting 0;
  is_started = false;
  is_stopped = false;
  jobs = 0;
  log = [];
}

abbrev pub goes : Running → Place → List RunLine → Running
goes s p ls = record s { place = p; log = s.log ++ ls }

module _ (cron : Cron) (s : Scheduler) where
  pub data Step (cancelled : Bool) (t : Running) : Running → Type 0 where
    -- `runColdStart`
    give_in :
        (k : ℕ) → t.place ≡ attempting k → cancelled ≡ true → Step cancelled t (goes t cold_over [])
    attempt :
        (k : ℕ)
        → t.place ≡ attempting k
        → cancelled ≡ false
        → Step cancelled t (goes t (refreshing k) [])
    refreshes : (k : ℕ) → t.place ≡ refreshing k → Step cancelled t (goes t cold_over [])
    -- a refresh that failed, and `ready()`
    fails_ready :
        (k : ℕ)
        → t.place ≡ refreshing k
        → Step cancelled t (goes t cold_over (cold cached_active ∷ []))
    fails_last :
        (k : ℕ)
        → t.place ≡ refreshing k
        → is_last s.cold_start k ≡ true
        → Step cancelled t (goes t cold_over (cold (budget_exhausted (k + 1)) ∷ []))
    fails :
        (k : ℕ)
        → t.place ≡ refreshing k
        → is_last s.cold_start k ≡ false
        → Step cancelled t
            (goes t (sleeping k) (cold (retrying (k + 1) (backoff s.cold_start k)) ∷ []))
    -- `realSleep`
    wakes : (k : ℕ) → t.place ≡ sleeping k → Step cancelled t (goes t (attempting (k + 1)) [])
    is_woken :
        (k : ℕ) → t.place ≡ sleeping k → cancelled ≡ true → Step cancelled t (goes t cold_over [])
    -- `Run` behind it
    leave : t.place ≡ cold_over → cancelled ≡ true → Step cancelled t (goes t (returned none) [])
    add_fails :
        (e : String)
        → t.place ≡ cold_over
        → cancelled ≡ false
        → cron.add s.schedule ≡ some e
        → Step cancelled t (goes t (returned (some e)) [])
    start :
        t.place ≡ cold_over
        → cancelled ≡ false
        → cron.add s.schedule ≡ none
        → Step cancelled t
            (record t { place = waiting; is_started = true; log = t.log ++ started ∷ [] })
    stop :
        t.place ≡ waiting
        → cancelled ≡ true
        → Step cancelled t (record t { place = draining; is_stopped = true })
    drain :
        t.place ≡ draining
        → cron.drained t.jobs ≡ true
        → Step cancelled t (goes t (returned none) (stopped ∷ []))
    -- a tick of the cron, and the end of its job
    fires :
        t.is_started ≡ true
        → cron.starts t.is_stopped t.jobs ≡ true
        → Step cancelled t (record t { jobs = suc t.jobs })
    job_ends : (n : ℕ) → t.jobs ≡ suc n → Step cancelled t (record t { jobs = n })
    job_fails :
        (n : ℕ)
        → t.jobs ≡ suc n
        → Step cancelled t (record t { jobs = n; log = t.log ++ refresh_failed ∷ [] })

  -- The states that `Run` gets to, with the state of its context, which stays cancelled once it is.
  pub data Reach : Bool → Running → Type 0 where
    begun : Reach false begin_run
    cancels : (t : Running) → Reach false t → Reach true t
    steps : (c : Bool) (t u : Running) → Reach c t → Step c t u → Reach c u

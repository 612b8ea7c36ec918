-- ===== src/Daemon/Running.antt =====
-- cmd/bitblocker/main.go: `runComponents`, with the two goroutines that it joins. A step is one step of
-- the server, of the scheduler, or of `runComponents` itself.
pub mod Joining
pub mod Results
pub mod Stopping
mod Examples
use bitblocker.Base.{
  ℕ, String, ◌≡◌, Bool, true, false, ◌||◌, Option, none, some, List, [], ◌∷◌, ◌++◌,
}
use bitblocker.Netip.{Addr}
use bitblocker.Server.Readiness.{Lookup}
use bitblocker.Server.ClientIp.{Text}
use bitblocker.Server.Handlers.{Server}
use bitblocker.Server.Running.{
  RunError, not_served, server_closed, Running as ServerRun, begin_run as begin_server,
  returned as server_returned, Step as ServerStep, Reach as ServerReach,
}
use bitblocker.Scheduler.{Scheduler}
use bitblocker.Scheduler.Running.{
  Cron, Running as SchedulerRun, begin_run as begin_scheduler, returned as scheduler_returned,
  Step as SchedulerStep, Reach as SchedulerReach,
}

-- Where `runComponents` stands: in `srv.Run`, or in `wg.Wait` behind `cancel`, or it has returned.
pub data Place : Type 0 where
  serving : Place
  joining ended : Option RunError → Place

-- `errors.Is(runErr, http.ErrServerClosed)` is no error.
unfoldable pub exit_error : Option RunError → Option RunError
exit_error (some (not_served server_closed)) = none
exit_error r = r

pub record Running : Type 0 where
  pub place : Place
  -- `ctx` of `signal.NotifyContext`
  pub is_signalled : Bool
  pub server : ServerRun
  pub scheduler : SchedulerRun

abbrev pub is_joining : Place → Bool
is_joining serving = false
is_joining _ = true

-- `runCtx`, which the signal or `cancel` cancels.
abbrev pub is_cancelled : Running → Bool
is_cancelled t = t.is_signalled || is_joining t.place

unfoldable pub begin_run : Server → ℕ → Option Lookup → Running
begin_run s now l = record {
  place = serving;
  is_signalled = false;
  server = begin_server s now l;
  scheduler = begin_scheduler;
}

module _ (parse_addr : Text → Option Addr) (redacted : Addr → Text) (cron : Cron)
    (sch : Scheduler) where
  pub data Step (t : Running) : Running → Type 0 where
    signals : Step t (record t { is_signalled = true })
    server_steps :
        (u : ServerRun)
        → ServerStep parse_addr redacted (is_cancelled t) t.server u
        → Step t (record t { server = u })
    scheduler_steps :
        (u : SchedulerRun)
        → SchedulerStep cron sch (is_cancelled t) t.scheduler u
        → Step t (record t { scheduler = u })
    -- `runErr := srv.Run(runCtx)`, `cancel()`
    stop_all :
        (r : Option RunError)
        → t.place ≡ serving
        → t.server.place ≡ server_returned r
        → Step t (record t { place = joining r })
    -- `wg.Wait()`
    join_all :
        (r : Option RunError) (q : Option String)
        → t.place ≡ joining r
        → t.scheduler.place ≡ scheduler_returned q
        → Step t (record t { place = ended (exit_error r) })

  pub data Reach (s : Server) (now : ℕ) (l : Option Lookup) : Running → Type 0 where
    begun : Reach s now l (begin_run s now l)
    steps : (t u : Running) → Reach s now l t → Step t u → Reach s now l u

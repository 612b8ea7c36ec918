-- ===== src/Daemon/Running/Joining.antt =====
-- cmd/bitblocker/main.go: the two runs inside a run of `runComponents`, and what it returns.
use bitblocker.Base.{ℕ, String, ◌≡◌, refl, subst, Bool, true, false, ◌||◌, Option, arith}
use bitblocker.Netip.{Addr}
use bitblocker.Server.Readiness.{Lookup}
use bitblocker.Server.ClientIp.{Text}
use bitblocker.Server.Handlers.{Server}
use bitblocker.Server.Running.{
  RunError, Running as ServerRun, returned as server_returned, Step as ServerStep, serve, beats,
  beat_stops, listener_fails, listener_closes, see_cancel, see_error, shut_down, shutdown_fails,
  receive, cancel_beat, join, Reach as ServerReach, begun as server_begun,
  cancels as server_cancels, steps as server_steps',
}
use bitblocker.Server.Running.Results.{run_result}
use bitblocker.Scheduler.{Scheduler}
use bitblocker.Scheduler.Running.{
  Cron, Running as SchedulerRun, returned as scheduler_returned, Step as SchedulerStep, give_in,
  attempt, refreshes, fails_ready, fails_last, fails, wakes, is_woken, leave, add_fails, start,
  stop, drain, fires, job_ends, job_fails, Reach as SchedulerReach, begun as scheduler_begun,
  cancels as scheduler_cancels, steps as scheduler_steps',
}
use bitblocker.Daemon.Running.{
  Place, serving, joining, ended, exit_error, Running, is_joining, is_cancelled, begin_run, Step,
  signals, server_steps, scheduler_steps, stop_all, join_all, Reach, begun, steps,
}

-- What `runComponents` has seen return.
abbrev pub Seen : ServerRun → SchedulerRun → Place → Type 0
Seen s k serving = Unit
Seen s k (joining r) = s.place ≡ server_returned r
Seen s k (ended r) =
    (x : Option RunError) × (q : Option String) × (r ≡ exit_error x)
    × (s.place ≡ server_returned x)
    × (k.place ≡ scheduler_returned q)

module _ (parse_addr : Text → Option Addr) (redacted : Addr → Text) where
  -- A server that has returned no longer looks at its context.
  step_over :
      (c d : Bool) (s u : ServerRun) (r : Option RunError)
      → s.place ≡ server_returned r
      → s.beating ≡ false
      → ServerStep parse_addr redacted c s u
      → ServerStep parse_addr redacted d s u × (u.place ≡ server_returned r)
  step_over c d s _ r p b (serve x n) = (serve x n, p)
  step_over c d s _ r p b (beats now later l n) = (beats now later l n, p)
  step_over c d s _ r p b (beat_stops n e) = ground arith
  step_over c d s _ r p b (listener_fails e l n) = (listener_fails e l n, p)
  step_over c d s _ r p b (listener_closes l n) = (listener_closes l n, p)
  step_over c d s _ r p b (see_cancel q k) = ground arith
  step_over c d s _ r p b (see_error e q l) = ground arith
  step_over c d s _ r p b (shut_down q) = ground arith
  step_over c d s _ r p b (shutdown_fails e q) = ground arith
  step_over c d s _ r p b (receive e q l) = ground arith
  step_over c d s _ r p b (cancel_beat e q) = ground arith
  step_over c d s _ r p b (join e q n) = ground arith

  module _ (cron : Cron) (sch : Scheduler) where
    -- A scheduler that has returned stays there.
    stays :
        (c : Bool) (s u : SchedulerRun) (q : Option String)
        → SchedulerStep cron sch c s u
        → s.place ≡ scheduler_returned q
        → u.place ≡ scheduler_returned q
    stays c s _ q (give_in k p d) h = ground arith
    stays c s _ q (attempt k p d) h = ground arith
    stays c s _ q (refreshes k p) h = ground arith
    stays c s _ q (fails_ready k p) h = ground arith
    stays c s _ q (fails_last k p l) h = ground arith
    stays c s _ q (fails k p l) h = ground arith
    stays c s _ q (wakes k p) h = ground arith
    stays c s _ q (is_woken k p d) h = ground arith
    stays c s _ q (leave p d) h = ground arith
    stays c s _ q (add_fails e p d a) h = ground arith
    stays c s _ q (start p d a) h = ground arith
    stays c s _ q (stop p d) h = ground arith
    stays c s _ q (drain p d) h = ground arith
    stays c s _ q (fires a d) h = h
    stays c s _ q (job_ends n j) h = h
    stays c s _ q (job_fails n j) h = h

    cancelled_server :
        (s : Server) (now : ℕ) (l : Option Lookup) (c : Bool) (t : ServerRun)
        → ServerReach parse_addr redacted s now l c t
        → ServerReach parse_addr redacted s now l true t
    cancelled_server s now l false t r = server_cancels t r
    cancelled_server s now l true t r = r

    cancelled_scheduler :
        (c : Bool) (t : SchedulerRun) → SchedulerReach cron sch c t → SchedulerReach cron sch true t
    cancelled_scheduler false t r = scheduler_cancels t r
    cancelled_scheduler true t r = r

    module _ (s0 : Server) (now : ℕ) (l0 : Option Lookup) where
      pub record IsJoint (t : Running) : Type 0 where
        pub server_run : ServerReach parse_addr redacted s0 now l0 t.is_signalled t.server
        pub scheduler_run : SchedulerReach cron sch (is_cancelled t) t.scheduler
        pub seen : Seen t.server t.scheduler t.place

      -- A step of a server that has returned.
      late_step :
          (c : Bool) (t : Running) (u : ServerRun) (r : Option RunError)
          → t.server.place ≡ server_returned r
          → ServerStep parse_addr redacted c t.server u
          → IsJoint t
          → ServerReach parse_addr redacted s0 now l0 t.is_signalled u
            × (u.place ≡ server_returned r)
      late_step c t u r h x v =
          let over =
            (run_result parse_addr redacted s0 now l0 t.is_signalled t.server r v.server_run h).0 in
          let (y, q) = step_over c t.is_signalled t.server u r h over x in
          (server_steps' t.is_signalled t.server u v.server_run y, q)

      server_step :
          (t : Running) (u : ServerRun) (p : Place)
          → t.place ≡ p
          → ServerStep parse_addr redacted (t.is_signalled || is_joining p) t.server u
          → Seen t.server t.scheduler p
          → IsJoint t
          → ServerReach parse_addr redacted s0 now l0 t.is_signalled u × Seen u t.scheduler p
      server_step t u serving hp x n v =
          let y = subst (λ c. ServerStep parse_addr redacted c t.server u) (ground arith) x in
          (server_steps' t.is_signalled t.server u v.server_run y, tt)
      server_step t u (joining r) hp x n v = late_step _ t u r n x v
      server_step t u (ended r) hp x (z, q, e, n, k) v =
          let (y, m) = late_step _ t u z n x v in (y, (z, q, e, m, k))

      scheduler_seen :
          (c : Bool) (s : ServerRun) (k u : SchedulerRun) (p : Place)
          → SchedulerStep cron sch c k u
          → Seen s k p
          → Seen s u p
      scheduler_seen c s k u serving x n = tt
      scheduler_seen c s k u (joining r) x n = n
      scheduler_seen c s k u (ended r) x (z, q, e, n, m) = (z, q, e, n, stays c k u q x m)

      Step-IsJoint : (t u : Running) → Step parse_addr redacted cron sch t u → IsJoint t → IsJoint u
      Step-IsJoint t _ signals v = record {
        server_run = cancelled_server s0 now l0 t.is_signalled t.server v.server_run;
        scheduler_run = cancelled_scheduler (is_cancelled t) t.scheduler v.scheduler_run;
        seen = v.seen;
      }
      Step-IsJoint t _ (server_steps u x) v =
          let (y, n) = server_step t u t.place refl x v.seen v in
          record { server_run = y; scheduler_run = v.scheduler_run; seen = n }
      Step-IsJoint t _ (scheduler_steps u x) v = record {
        server_run = v.server_run;
        scheduler_run = scheduler_steps' (is_cancelled t) t.scheduler u v.scheduler_run x;
        seen = scheduler_seen (is_cancelled t) t.server t.scheduler u t.place x v.seen;
      }
      Step-IsJoint t _ (stop_all r p h) v = record {
        server_run = v.server_run;
        scheduler_run =
            subst (λ c. SchedulerReach cron sch c t.scheduler) (ground arith)
              (cancelled_scheduler (is_cancelled t) t.scheduler v.scheduler_run);
        seen = h;
      }
      Step-IsJoint t _ (join_all r q p h) v = record {
        server_run = v.server_run;
        scheduler_run =
            subst (λ c. SchedulerReach cron sch c t.scheduler) (ground arith)
              (cancelled_scheduler (is_cancelled t) t.scheduler v.scheduler_run);
        seen = (r, q, refl, subst (Seen t.server t.scheduler) p v.seen, h);
      }

      pub Reach-IsJoint : (t : Running) → Reach parse_addr redacted cron sch s0 now l0 t → IsJoint t
      unfolding begin_run
      Reach-IsJoint _ begun = record {
        server_run = server_begun;
        scheduler_run = scheduler_begun;
        seen = tt;
      }
      Reach-IsJoint _ (steps t u r x) = Step-IsJoint t u x (Reach-IsJoint t r)

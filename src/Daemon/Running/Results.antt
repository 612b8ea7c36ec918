-- ===== src/Daemon/Running/Results.antt =====
-- cmd/bitblocker/main.go: what `runComponents` returns, and until when it serves.
use bitblocker.Base.{ℕ, ◌≡◌, refl, sym, subst, ◌∙◌, true, false, Option, none, some, arith}
use bitblocker.Netip.{Addr}
use bitblocker.Server.Readiness.{Lookup}
use bitblocker.Server.ClientIp.{Text}
use bitblocker.Server.Handlers.{Server}
use bitblocker.Server.Running.{
  ServeError, RunError, not_served, not_shut_down, server_closed, broken, listening,
  ended as listener_ended, selecting, returned as server_returned,
}
use bitblocker.Server.Running.Results.{run_result, Reach-IsSound}
use bitblocker.Scheduler.{Scheduler}
use bitblocker.Scheduler.Running.{Cron, IsCron}
use bitblocker.Scheduler.Running.Refreshes.{one_refresh}
use bitblocker.Daemon.Running.{
  Place, serving, joining, ended, exit_error, Running, is_cancelled, Reach,
}
use bitblocker.Daemon.Running.Joining.{IsJoint, Reach-IsJoint, Seen}

module _ (parse_addr : Text → Option Addr) (redacted : Addr → Text) (cron : Cron) (sch : Scheduler)
    (s0 : Server) (now : ℕ) (l0 : Option Lookup) where
  nil_signalled :
      (t : Running) (x : Option RunError)
      → IsJoint parse_addr redacted cron sch s0 now l0 t
      → t.server.place ≡ server_returned x
      → exit_error x ≡ none
      → t.is_signalled ≡ true
  unfolding exit_error
  nil_signalled t none v p e =
      ((run_result parse_addr redacted s0 now l0 t.is_signalled t.server none v.server_run p).1
        refl).0
  nil_signalled t (some (not_served server_closed)) v p e = absurd (
      ((run_result parse_addr redacted s0 now l0 t.is_signalled t.server _ v.server_run p).2
          server_closed refl).1
        refl)
  nil_signalled t (some (not_served (broken m))) v p e = ground arith
  nil_signalled t (some (not_shut_down m)) v p e = ground arith

  served :
      (x : Option RunError) (e : ServeError)
      → exit_error x ≡ some (not_served e)
      → x ≡ some (not_served e)
  unfolding exit_error
  served none e h = ground arith
  served (some (not_served server_closed)) e h = ground arith
  served (some (not_served (broken m))) e h = h
  served (some (not_shut_down m)) e h = h

  -- When `runComponents` has returned, the heartbeat of the server has ended and no refresh is under
  -- way. It returns nil only after a signal, and an error of the listener only if the listener broke
  -- with it.
  pub daemon_result :
      (t : Running) (r : Option RunError)
      → IsCron cron
      → Reach parse_addr redacted cron sch s0 now l0 t
      → t.place ≡ ended r
      → (t.server.beating ≡ false)
        × (t.scheduler.jobs ≡ 0)
        × (r ≡ none → t.is_signalled ≡ true)
        × ((e : ServeError) → r ≡ some (not_served e) → t.server.listener ≡ listener_ended e)
  daemon_result t r law x p =
      let v = Reach-IsJoint parse_addr redacted cron sch s0 now l0 t x in
      let (z, q, e, n, m) = subst (Seen t.server t.scheduler) p v.seen in
      let result =
        run_result parse_addr redacted s0 now l0 t.is_signalled t.server z v.server_run n in
      (
        result.0,
        (one_refresh cron sch law (is_cancelled t) t.scheduler v.scheduler_run).1 q m,
        λ h. nil_signalled t z v n (sym e ∙ h),
        λ y h. (result.2 y (served z y (sym e ∙ h))).0,
      )

  undisturbed_at :
      (t : Running) (p : Place)
      → t.place ≡ p
      → t.server.place ≡ selecting
      → Seen t.server t.scheduler p
      → t.place ≡ serving
  undisturbed_at t serving h q n = h
  undisturbed_at t (joining r) h q n = ground arith
  undisturbed_at t (ended r) h q (z, y, e, n, m) = ground arith

  -- Until a signal comes or the listener ends, the daemon serves, whatever becomes of the scheduler:
  -- `runComponents` waits for the server, whose `Run` is in the select, and the context of both is
  -- not cancelled, even when the scheduler has returned with an error.
  pub daemon_serves :
      (t : Running)
      → Reach parse_addr redacted cron sch s0 now l0 t
      → t.is_signalled ≡ false
      → t.server.listener ≡ listening
      → (t.place ≡ serving) × (t.server.place ≡ selecting) × (is_cancelled t ≡ false)
  daemon_serves t x u h =
      let v = Reach-IsJoint parse_addr redacted cron sch s0 now l0 t x in
      let sound =
        Reach-IsSound parse_addr redacted s0 now l0 t.is_signalled t.server v.server_run in
      let at : t.server.place ≡ selecting =
        ground (arith, sound.undisturbed, sound.shutdown_cancelled) in
      let here = undisturbed_at t t.place refl at v.seen in (here, at, ground arith)

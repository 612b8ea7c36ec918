-- ===== src/Daemon/Running/Stopping.antt =====
-- cmd/bitblocker/main.go: `runComponents` comes to an end after a signal, and after the end of the
-- listener.
use bitblocker.Base.{ℕ, ◌+◌, ◌*◌, ◌≤◌, ◌≡◌, refl, sym, subst, true, Option, arith, inl, inr, ◌⊎◌}
use bitblocker.Netip.{Addr}
use bitblocker.Server.Readiness.{Lookup}
use bitblocker.Server.ClientIp.{Text}
use bitblocker.Server.Handlers.{Server}
use bitblocker.Server.Running.{
  ServeError, RunError, ended as listener_ended, begin_run as begin_server, call_of,
}
use bitblocker.Server.Running.Stopping.{
  moves_in, rank as server_rank, Step-rank as server_step_rank, progress as server_progress,
  HasReturned as ServerHasReturned, CanMove as ServerCanMove,
}
use bitblocker.Scheduler.{Scheduler}
use bitblocker.Scheduler.Running.{Cron, IsCron, begin_run as begin_scheduler}
use bitblocker.Server.Running.Results.{Reach-IsSound as server_sound}
use bitblocker.Scheduler.Running.Refreshes.{Reach-IsSound as scheduler_sound}
use bitblocker.Scheduler.Running.Stopping.{
  budget, move_of as scheduler_move_of, rank as scheduler_rank, Step-rank as scheduler_step_rank,
  Reach-rank as scheduler_reach_rank, progress as scheduler_progress,
  HasReturned as SchedulerHasReturned, CanMove as SchedulerCanMove,
}
use bitblocker.Daemon.Running.{
  Place, serving, joining, ended, Running, is_cancelled, begin_run, Step, signals, server_steps,
  scheduler_steps, stop_all, join_all, Reach, begun, steps,
}
use bitblocker.Daemon.Running.Joining.{IsJoint, Reach-IsJoint}

abbrev place_rank : Place → ℕ
place_rank serving = 2
place_rank (joining r) = 1
place_rank (ended r) = 0

abbrev pub HasEnded : Running → Type 0
HasEnded t = (r : Option RunError) × (t.place ≡ ended r)

abbrev pub IsEnding : Running → Type 0
IsEnding t = (t.is_signalled ≡ true) ⊎ ((e : ServeError) × (t.server.listener ≡ listener_ended e))

module _ (parse_addr : Text → Option Addr) (redacted : Addr → Text) (cron : Cron)
    (sch : Scheduler) where
  -- A move of the server, of the scheduler, or of `runComponents`.
  abbrev pub move_of : (t u : Running) → Step parse_addr redacted cron sch t u → ℕ
  move_of t _ signals = 0
  move_of t _ (server_steps u x) =
      moves_in (call_of parse_addr redacted (is_cancelled t) t.server u x)
  move_of t _ (scheduler_steps u x) = scheduler_move_of cron sch (is_cancelled t) t.scheduler u x
  move_of t _ (stop_all r p h) = 1
  move_of t _ (join_all r q p h) = 1

  abbrev rank : Running → ℕ
  rank t = place_rank t.place + server_rank t.server + scheduler_rank cron sch t.scheduler

  abbrev pub CanMove : Running → Type 0
  CanMove t = (u : Running) × (x : Step parse_addr redacted cron sch t u) × (move_of t u x ≡ 1)

  when_server :
      (t : Running)
      → t.place ≡ serving
      → ServerHasReturned t.server ⊎ ServerCanMove parse_addr redacted (is_cancelled t) t.server
      → CanMove t
  when_server t h (inl (r, p)) = (_, stop_all r h p, refl)
  when_server t h (inr (u, x, m)) = (_, server_steps u x, m)

  when_scheduler :
      (t : Running) (r : Option RunError)
      → t.place ≡ joining r
      → SchedulerHasReturned t.scheduler ⊎ SchedulerCanMove cron sch (is_cancelled t) t.scheduler
      → CanMove t
  when_scheduler t r h (inl (q, p)) = (_, join_all r q h p, refl)
  when_scheduler t r h (inr (u, x, m)) = (_, scheduler_steps u x, m)

  module _ (s0 : Server) (now : ℕ) (l0 : Option Lookup) where
    pub moves : (t : Running) → Reach parse_addr redacted cron sch s0 now l0 t → ℕ
    moves _ begun = 0
    moves _ (steps t u r x) = move_of t u x + moves t r

    module _ (law : IsCron cron) where
      -- The server can make a move, or has returned, once something ends it; then the scheduler.
      server_moves :
          (t : Running)
          → IsJoint parse_addr redacted cron sch s0 now l0 t
          → IsEnding t
          → t.place ≡ serving
          → CanMove t
      server_moves t v k h =
          let same : is_cancelled t ≡ t.is_signalled = ground arith in
          when_server t h (
            subst (λ c. ServerHasReturned t.server ⊎ ServerCanMove parse_addr redacted c t.server)
              (sym same)
              (server_progress parse_addr redacted t.is_signalled t.server t.server.place
                t.server.listener t.server.beating refl refl refl k
                (server_sound parse_addr redacted s0 now l0 t.is_signalled t.server v.server_run)))

      scheduler_moves :
          (t : Running) (r : Option RunError)
          → IsJoint parse_addr redacted cron sch s0 now l0 t
          → t.place ≡ joining r
          → CanMove t
      scheduler_moves t r v h = when_scheduler t r h (
          scheduler_progress cron sch (is_cancelled t) t.scheduler t.scheduler.place
            t.scheduler.jobs law refl refl (ground arith)
            (scheduler_sound cron sch law (is_cancelled t) t.scheduler v.scheduler_run))

      progress :
          (t : Running) (p : Place)
          → IsJoint parse_addr redacted cron sch s0 now l0 t
          → IsEnding t
          → t.place ≡ p
          → HasEnded t ⊎ CanMove t
      progress t serving v k h = inr (server_moves t v k h)
      progress t (joining r) v k h = inr (scheduler_moves t r v h)
      progress t (ended r) v k h = inl (r, h)

      Step-rank :
          (t u : Running) (x : Step parse_addr redacted cron sch t u)
          → IsJoint parse_addr redacted cron sch s0 now l0 t
          → move_of t u x + rank u ≤ rank t
      Step-rank t _ signals v = ground arith
      Step-rank t _ (server_steps u x) v =
          let h = server_step_rank parse_addr redacted (is_cancelled t) t.server u x in omega arith
      Step-rank t _ (scheduler_steps u x) v =
          let c = is_cancelled t in
          let sound = scheduler_sound cron sch law c t.scheduler v.scheduler_run in
          let (b, n) = scheduler_reach_rank cron sch c t.scheduler v.scheduler_run law in
          let (b', h) = scheduler_step_rank cron sch c t.scheduler u x law sound b in omega arith
      Step-rank t _ (stop_all r p h) v = ground arith
      Step-rank t _ (join_all r q p h) v = ground arith

      Reach-rank :
          (t : Running) (r : Reach parse_addr redacted cron sch s0 now l0 t)
          → moves t r + rank t ≤ 3 * budget cron sch + 15
      unfolding moves begin_run begin_server begin_scheduler
      Reach-rank _ begun = ground arith
      Reach-rank _ (steps t u r x) =
          let h = Reach-rank t r in
          let k = Step-rank t u x (Reach-IsJoint parse_addr redacted cron sch s0 now l0 t r) in
          omega arith

      -- A run of `runComponents` makes at most `3 * max_attempts + 15` moves, that is, steps of it, of the
      -- two `Run`s, or ends of jobs that the cron's `Stop` waits for; and once a signal has come or the
      -- listener has ended, a move is possible until `runComponents` has returned. So a signal and a
      -- failure of the listener both bring the process down, whatever handlers, heartbeats and ticks of
      -- the cron run meanwhile, as soon as these moves get their turn.
      pub daemon_stops :
          (t : Running) (r : Reach parse_addr redacted cron sch s0 now l0 t)
          → (moves t r ≤ 3 * budget cron sch + 15) × (IsEnding t → HasEnded t ⊎ CanMove t)
      daemon_stops t r =
          let h = Reach-rank t r in
          (
            omega arith,
            λ k.
                progress t t.place (Reach-IsJoint parse_addr redacted cron sch s0 now l0 t r) k
                  refl,
          )

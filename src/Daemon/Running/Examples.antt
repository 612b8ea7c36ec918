-- ===== src/Daemon/Running/Examples.antt =====
-- Runs of the process on which the theorems about `runComponents` are applied.
use bitblocker.Base.{
  ◌+◌, ◌*◌, ◌≤◌, ◌≡◌, refl, true, false, not, ◌&&◌, ◌⊎◌, Option, none, some, [], ◌==◌, arith,
}
use bitblocker.Base.Int.{pos}
use bitblocker.Netip.{Addr}
use bitblocker.Server.Readiness.{startup_fail_closed}
use bitblocker.Server.ClientIp.{Text}
use bitblocker.Server.Handlers.{Server}
use bitblocker.Server.Running.{
  ServeError, not_served, broken, sent, listening, ended as listener_ended, selecting,
  begin_run as begin_server, beat_stops, listener_fails, see_error, cancel_beat, join,
}
use bitblocker.Scheduler.{Scheduler}
use bitblocker.Scheduler.Running.{
  Cron, IsCron, begin_run as begin_scheduler, returned as scheduler_returned, give_in, attempt,
  refreshes, leave, add_fails,
}
use bitblocker.Daemon.Running.{
  serving, ended, exit_error, Running, is_cancelled, begin_run, server_steps, scheduler_steps,
  stop_all, join_all, Reach, begun, steps,
}
use bitblocker.Daemon.Running.Results.{daemon_result, daemon_serves}
use bitblocker.Daemon.Running.Stopping.{moves, IsEnding, HasEnded, CanMove, daemon_stops}

abbrev parser : Text → Option Addr
parser t = none

abbrev hide : Addr → Text
hide a = []

abbrev closed_server : Server
closed_server = record {
  addr = "127.0.0.1:8080";
  block_status = pos 403;
  log_blocked = true;
  log_allowed = false;
  readiness = record {
    is_usable = false;
    ever_ready = false;
    unusable_since = 0;
    fail_open_total = 0;
    fail_open_since_heartbeat = 0;
    fail_open_at_window_start = 0;
    mode = startup_fail_closed;
  };
}

-- A cron that refuses the schedule.
abbrev cron : Cron
cron = record {
  add = λ e. some "bad schedule";
  starts = λ s n. not s && n == 0;
  drained = λ n. n == 0;
}

cron-IsCron : IsCron cron
cron-IsCron = record {
  skips = λ s n h. ground arith;
  stops = λ n. refl;
  waits = λ n h. ground arith;
  lets_go = refl;
}

abbrev daily : Scheduler
daily = record {
  schedule = "0 3 * * *";
  timeout = pos 30000000000;
  cold_start = record { max_attempts = pos 8; base_delay = pos 2000; max_delay = pos 300000 };
}

-- The scheduler returns with an error, and nothing else happens.
scheduler_gone :
    (t : Running) × Reach parser hide cron daily closed_server 5 none t
    × (t.is_signalled ≡ false)
    × (t.server.listener ≡ listening)
    × (t.scheduler.place ≡ scheduler_returned (some "bad schedule"))
unfolding begin_run begin_server begin_scheduler
scheduler_gone = (
  _,
  steps _ _
      (steps _ _ (steps _ _ begun (scheduler_steps _ (attempt 0 refl refl)))
        (scheduler_steps _ (refreshes 0 refl)))
      (scheduler_steps _ (add_fails "bad schedule" refl refl refl)),
  refl,
  refl,
  refl,
)

-- The address is in use: the server ends, and the scheduler is cancelled.
bind_fails :
    (t : Running) × Reach parser hide cron daily closed_server 5 none t
    × (t.place ≡ ended (some (not_served (broken "in use"))))
unfolding begin_run begin_server begin_scheduler sent exit_error
bind_fails =
    let e = some (not_served (broken "in use")) in
    (
      _,
      steps _ _
          (steps _ _
            (steps _ _
              (steps _ _
                (steps _ _
                  (steps _ _
                    (steps _ _
                      (steps _ _
                        (steps _ _ begun (server_steps _ (listener_fails "in use" refl refl)))
                        (server_steps _ (see_error (broken "in use") refl refl)))
                      (server_steps _ (cancel_beat e refl)))
                    (server_steps _ (beat_stops refl refl)))
                  (server_steps _ (join e refl refl)))
                (stop_all e refl refl))
              (scheduler_steps _ (give_in 0 refl refl)))
            (scheduler_steps _ (leave refl refl)))
          (join_all e none refl refl),
      refl,
    )

daemon_result_example :
    (bind_fails.0.server.beating ≡ false)
    × (bind_fails.0.scheduler.jobs ≡ 0)
    × (some (not_served (broken "in use")) ≡ none → bind_fails.0.is_signalled ≡ true)
    × ((e : ServeError)
        → some (not_served (broken "in use")) ≡ some (not_served e)
        → bind_fails.0.server.listener ≡ listener_ended e)
daemon_result_example =
    daemon_result parser hide cron daily closed_server 5 none bind_fails.0 _ cron-IsCron
      bind_fails.1 bind_fails.2

daemon_serves_example :
    (scheduler_gone.0.place ≡ serving)
    × (scheduler_gone.0.server.place ≡ selecting)
    × (is_cancelled scheduler_gone.0 ≡ false)
daemon_serves_example =
    daemon_serves parser hide cron daily closed_server 5 none scheduler_gone.0 scheduler_gone.1
      scheduler_gone.2 scheduler_gone.3

daemon_stops_example :
    (moves parser hide cron daily closed_server 5 none bind_fails.0 bind_fails.1 ≤ 3 * 8 + 15)
    × (IsEnding bind_fails.0 → HasEnded bind_fails.0 ⊎ CanMove parser hide cron daily bind_fails.0)
daemon_stops_example =
    daemon_stops parser hide cron daily closed_server 5 none cron-IsCron bind_fails.0 bind_fails.1

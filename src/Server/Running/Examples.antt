-- ===== src/Server/Running/Examples.antt =====
-- Runs of the server on which the theorems about `Run` are applied.
use bitblocker.Base.{◌≤◌, ◌≡◌, refl, true, false, ◌⊎◌, Option, none, some, [], ◌∷◌}
use bitblocker.Base.Int.{pos}
use bitblocker.Netip.{Addr, v4}
use bitblocker.Server.Readiness.{startup_fail_open, usable}
use bitblocker.Server.ClientIp.{Text}
use bitblocker.Server.Handlers.{Server, Request}
use bitblocker.Server.Handlers.Events.{edges, changes}
use bitblocker.Server.Handlers.Runs.{check}
use bitblocker.Server.Handlers.Totals.{observed_all}
use bitblocker.Server.Running.{
  broken, not_served, returned, sent, Running, begin_run, serve, beat_stops, listener_fails,
  see_cancel, see_error, cancel_beat, join, Reach, begun, cancels, steps, calls_of,
}
use bitblocker.Server.Running.Logs.{log_tells}
use bitblocker.Server.Running.Stopping.{IsEnding, HasReturned, CanMove, moves, run_stops}

abbrev parser : Text → Option Addr
parser (d ∷ []) = some (v4 (d ∷ d ∷ d ∷ d ∷ []))
parser _ = none

abbrev hide : Addr → Text
hide a = []

abbrev open_server : Server
open_server = record {
  addr = "127.0.0.1:8080";
  block_status = pos 403;
  log_blocked = true;
  log_allowed = false;
  readiness = record {
    is_usable = true;
    ever_ready = false;
    unusable_since = 0;
    fail_open_total = 0;
    fail_open_since_heartbeat = 0;
    fail_open_at_window_start = 0;
    mode = startup_fail_open;
  };
}

abbrev nameless : Request
nameless = record { method = "GET"; headers = record { x_real_ip = []; x_forwarded_for = [] } }

-- The address is in use.
bind_fails :
    (t : Running) × Reach parser hide open_server 5 none false t
    × (t.place ≡ returned (some (not_served (broken "in use"))))
unfolding begin_run sent
bind_fails = (
  _,
  steps _ _ _
      (steps _ _ _
        (steps _ _ _
          (steps _ _ _ (steps _ _ _ begun (listener_fails "in use" refl refl))
            (see_error (broken "in use") refl refl))
          (cancel_beat _ refl))
        (beat_stops refl refl))
      (join _ refl refl),
  refl,
)

-- A request comes while no blocklist is loaded; then the context is cancelled.
shuts_down : (t : Running) × Reach parser hide open_server 5 none true t
unfolding begin_run
shuts_down = (
  _,
  steps _ _ _ (cancels _ (steps _ _ _ begun (serve (check 6 none nameless) refl)))
      (see_cancel refl refl),
)

log_tells_example :
    edges shuts_down.0.log
    ≡ changes true (
        usable none
        ∷ observed_all (calls_of parser hide open_server 5 none true shuts_down.0 shuts_down.1))
log_tells_example = log_tells parser hide open_server 5 none true shuts_down.0 shuts_down.1

run_stops_example :
    (moves parser hide open_server 5 none true shuts_down.0 shuts_down.1 ≤ 7)
    × (IsEnding true shuts_down.0
        → HasReturned shuts_down.0 ⊎ CanMove parser hide true shuts_down.0)
run_stops_example = run_stops parser hide open_server 5 none true shuts_down.0 shuts_down.1

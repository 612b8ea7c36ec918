-- ===== src/Server/Handlers/Examples.antt =====
-- Servers and calls on which the theorems about the handlers are applied.
use bitblocker.Base.{◌≡◌, ◌↔◌, ◌⊎◌, refl, true, false, Option, none, some, List, [], ◌∷◌, arith}
use bitblocker.Base.Int.{pos}
use bitblocker.Netip.{Addr, v4}
use bitblocker.Server.Readiness.{
  Lookup, usable, fail_open, startup_fail_open, serving_enforcing, serving_allow_all,
  serving_deny_all,
}
use bitblocker.Server.ClientIp.{Text, extract_client_ip, trim_space}
use bitblocker.Server.Handlers.{
  Server, Request, plain, method_not_allowed, is_get, handle_check, handle_healthz,
}
use bitblocker.Server.Handlers.Decisions.{
  IsServer, LetsThrough, check_decides, healthz_tells, health_serving,
}
use bitblocker.Server.Handlers.Runs.{Call, check, probe, tick, run}
use bitblocker.Server.Handlers.Counts.{Tally, told_all, numbers}
use bitblocker.Server.Handlers.Counts.Steps.{numbers-run}

abbrev parser : Text → Option Addr
parser (d ∷ []) = some (v4 (d ∷ d ∷ d ∷ d ∷ []))
parser _ = none

abbrev hide : Addr → Text
hide a = []

abbrev open_server : Server
open_server = record {
  addr = "127.0.0.1:8080";
  block_status = pos 403;
  log_blocked = true;
  log_allowed = false;
  readiness = record {
    is_usable = true;
    ever_ready = false;
    unusable_since = 0;
    fail_open_total = 0;
    fail_open_since_heartbeat = 0;
    fail_open_at_window_start = 0;
    mode = startup_fail_open;
  };
}

open_server-IsServer : IsServer open_server
open_server-IsServer = record { at_least = omega arith; at_most = omega arith; known_mode = refl }

abbrev listing : Lookup
listing = record { contains = λ a. true; len = 3 }

abbrev nameless : Request
nameless = record { method = "GET"; headers = record { x_real_ip = []; x_forwarded_for = [] } }

check_decides_example :
    let (s', response, events) = handle_check parser hide open_server 5 none nameless in
    (is_get nameless ≡ true
      → (response ≡ plain (pos 200)) ↔ LetsThrough parser hide open_server none nameless)
    × (is_get nameless ≡ true → (response ≡ plain (pos 200)) ⊎ (response ≡ plain (pos 403)))
    × (is_get nameless ≡ false
        → (s' ≡ open_server) × (response ≡ method_not_allowed) × (events ≡ []))
check_decides_example = check_decides parser hide open_server 5 none nameless open_server-IsServer

nobody : extract_client_ip parser nameless.headers ≡ none
unfolding extract_client_ip trim_space
nobody = refl

listing_seen : usable (some listing) ≡ true
unfolding usable
listing_seen = refl

healthz_tells_example :
    let probe_response = (handle_healthz open_server 5 6 none nameless).1 in
    ((usable none ≡ true)
      × (probe_response.status ≡ pos 200)
      × (health_serving probe_response.body ≡ some serving_enforcing))
    ⊎ ((usable none ≡ false)
        × (probe_response.status ≡ pos 503)
        × (health_serving probe_response.body ≡ some serving_allow_all)
        × ((r : Request)
            → is_get r ≡ true
            → (handle_check parser hide open_server 5 none r).1 ≡ plain (pos 200)))
    ⊎ ((usable none ≡ false)
        × (probe_response.status ≡ pos 503)
        × (health_serving probe_response.body ≡ some serving_deny_all)
        × ((r : Request)
            → is_get r ≡ true
            → (handle_check parser hide open_server 5 none r).1 ≡ plain (pos 403)))
healthz_tells_example = healthz_tells parser hide open_server 5 6 none nameless refl

-- The list is missing, comes, and goes again.
abbrev calls : List Call
calls =
    check 1 none nameless
    ∷ tick 2 3 none
    ∷ probe 4 5 (some listing) nameless
    ∷ check 6 none nameless
    ∷ []

opens : fail_open open_server.readiness ≡ true
unfolding fail_open
opens = refl

abbrev counted : Tally
counted = record { is_usable = true; window = 0; since = 0 }

numbers-run_example :
    numbers
      (run parser hide open_server (
        check 5 none nameless
        ∷ tick 6 7 none
        ∷ check 8 none nameless
        ∷ check 9 (some listing) nameless
        ∷ [])).1
    ≡ 1 ∷ 2 ∷ []
unfolding told_all usable
numbers-run_example =
    numbers-run parser hide counted open_server
      (check 5 none nameless
        ∷ tick 6 7 none
        ∷ check 8 none nameless
        ∷ check 9 (some listing) nameless
        ∷ [])
      record {
        opens = opens;
        same_flag = refl;
        total_small = omega arith;
        start_small = omega arith;
        since_last = refl;
        since_start = λ e. refl;
      }

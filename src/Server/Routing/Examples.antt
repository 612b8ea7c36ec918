-- ===== src/Server/Routing/Examples.antt =====
-- Requests on which the theorem about the routes is applied.
use bitblocker.Base.{◌≡◌, ◌≢◌, ◌⊎◌, inr, refl, true, false, Option, none, [], ◌∷◌}
use bitblocker.Base.Int.{pos}
use bitblocker.Netip.{Addr}
use bitblocker.Server.Readiness.{startup_fail_closed}
use bitblocker.Server.ClientIp.{Text}
use bitblocker.Server.Handlers.{Server, handle_check, handle_healthz}
use bitblocker.Server.Routing.{
  check_name, healthz_name, slash, HttpRequest, not_found, moved_permanently, from_handler,
  clean_path, clean_segments, split_slash, unescape, target_of, to_check, serve_http,
}
use bitblocker.Server.Routing.Routes.{IsAt, routes}

abbrev parser : Text → Option Addr
parser t = none

abbrev hide : Addr → Text
hide a = []

abbrev closed_server : Server
closed_server = record {
  addr = "127.0.0.1:8080";
  block_status = pos 403;
  log_blocked = true;
  log_allowed = false;
  readiness = record {
    is_usable = false;
    ever_ready = false;
    unusable_since = 0;
    fail_open_total = 0;
    fail_open_since_heartbeat = 0;
    fail_open_at_window_start = 0;
    mode = startup_fail_closed;
  };
}

-- GET /%63heck
abbrev escaped_check : HttpRequest
escaped_check = record {
  request = record { method = "GET"; headers = record { x_real_ip = []; x_forwarded_for = [] } };
  path = slash ∷ b'%' ∷ b'6' ∷ b'3' ∷ b'h' ∷ b'e' ∷ b'c' ∷ b'k' ∷ [];
  query = [];
  is_star = false;
}

routes_example :
    (IsAt check_name escaped_check.path
      → serve_http parser hide closed_server 5 6 none escaped_check
        ≡ from_handler parser hide
            (handle_check parser hide closed_server 5 none escaped_check.request))
    × (IsAt healthz_name escaped_check.path
        → serve_http parser hide closed_server 5 6 none escaped_check
          ≡ from_handler parser hide (handle_healthz closed_server 5 6 none escaped_check.request))
    × (¬ IsAt check_name escaped_check.path
        → ¬ IsAt healthz_name escaped_check.path
        → let (s', answer, events) = serve_http parser hide closed_server 5 6 none escaped_check in
          (s' ≡ closed_server)
          × (events ≡ [])
          × ((answer ≡ not_found)
              ⊎ ((answer ≡ moved_permanently (clean_path escaped_check.path) escaped_check.query)
                  × (clean_path escaped_check.path ≢ escaped_check.path))))
routes_example = routes parser hide closed_server 5 6 none escaped_check refl (inr (_, refl))

reaches_check : target_of escaped_check.path ≡ to_check
unfolding target_of split_slash unescape
reaches_check = refl

-- /a/..//./check/
dotted :
    clean_path
      (slash ∷ b'a' ∷ slash ∷ b'.' ∷ b'.' ∷ slash ∷ slash ∷ b'.' ∷ slash ∷ b'c' ∷ slash ∷ [])
    ≡ slash ∷ b'c' ∷ slash ∷ []
unfolding clean_path clean_segments split_slash
dotted = refl

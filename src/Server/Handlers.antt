-- ===== src/Server/Handlers.antt =====
-- internal/server/server.go. One call reads the lookup source once; what it read is an argument of
-- the call, as are its readings of the clock. `redacted` is `logging.Redact` of the printed address.
pub mod Decisions
pub mod Events
pub mod Runs
pub mod Totals
pub mod Counts
mod Examples
use text.Mathlib.Text.{◌==◌ as str_eq}
use bitblocker.Base.{
  ℕ, ◌+◌, ◌/◌, String, Bool, true, false, not, ◌&&◌, ◌||◌, Option, none, some, List, [], ◌∷◌, ◌++◌,
  map, null, if◌then◌else◌,
}
use bitblocker.Base.Int.{ℤ, pos, negsuc, sub_ℕ, ltb_ℤ}
use bitblocker.Base.Result.{Result, ok, err}
use bitblocker.Netip.{Addr}
use bitblocker.Server.Readiness.{
  Lookup, Readiness, Signal, startup_fail_closed, startup_fail_open, serving_enforcing, second,
  usable, new_readiness, fail_open, serving, window_since, observe, heartbeat,
  count_fail_open_allow,
}
use bitblocker.Server.ClientIp.{Text, Headers, extract_client_ip}

pub record Server : Type 0 where
  pub addr : String
  pub block_status : ℤ
  pub log_blocked : Bool
  pub log_allowed : Bool
  pub readiness : Readiness

-- `Options`; of the lookup source and the logger `New` asks only whether they are nil.
pub record Options : Type 0 where
  pub addr : String
  pub lookup_given : Bool
  pub logger_given : Bool
  pub block_status : ℤ
  pub log_blocked : Bool
  pub log_allowed : Bool
  pub startup_mode : String

pub data NewError : Type 0 where
  addr_required lookup_required logger_required : NewError
  bad_block_status : ℤ → NewError
  bad_startup_mode : String → NewError

abbrev pub is_startup_mode : String → Bool
is_startup_mode m = str_eq m startup_fail_closed || str_eq m startup_fail_open

-- `New`.
unfoldable pub new_server : Options → Result NewError Server
new_server o =
    if str_eq o.addr ""
    then err addr_required
    else if not o.lookup_given
    then err lookup_required
    else if not o.logger_given
    then err logger_required
    else if ltb_ℤ o.block_status (pos 400) || ltb_ℤ (pos 599) o.block_status
    then err (bad_block_status o.block_status)
    else if not (is_startup_mode o.startup_mode)
    then err (bad_startup_mode o.startup_mode)
    else ok (record {
      addr = o.addr;
      block_status = o.block_status;
      log_blocked = o.log_blocked;
      log_allowed = o.log_allowed;
      readiness = new_readiness o.startup_mode;
    })

pub record Request : Type 0 where
  pub method : String
  pub headers : Headers

-- `healthzResponse`.
pub record Health : Type 0 where
  pub status : String
  pub serving : String
  pub ever_ready : Bool
  pub prefixes : Option ℕ
  pub empty_for_seconds : Option ℤ

-- `http.Error` with an empty message writes a newline.
pub data Body : Type 0 where
  empty newline : Body
  health : Health → Body

pub record Response : Type 0 where
  pub status : ℤ
  pub allow_get : Bool
  pub body : Body

pub data Event : Type 0 where
  signal : Signal → Event
  unparseable_ip : (real_present forwarded_present : Bool) → Event
  blocked : Text → Event
  allowed : Text → Event

abbrev pub plain : ℤ → Response
plain s = record { status = s; allow_get = false; body = empty }

abbrev pub method_not_allowed : Response
method_not_allowed = record { status = pos 405; allow_get = true; body = newline }

abbrev pub is_get : Request → Bool
is_get r = str_eq r.method "GET"

abbrev pub Outcome : Type 0
Outcome = Server × Response × List Event

-- The lookup that may be asked: `none` if `usable` refuses it.
abbrev pub usable_lookup : Option Lookup → Option Lookup
usable_lookup l = if usable l then l else none

module _ (parse_addr : Text → Option Addr) (redacted : Addr → Text) where
  -- `handleCheck` on a usable lookup, from the address on.
  unfoldable pub decide : Server → Lookup → Headers → Option Addr → ℤ × List Event
  decide s l h none =
      (s.block_status, unparseable_ip (not (null h.x_real_ip)) (not (null h.x_forwarded_for)) ∷ [])
  decide s l h (some a) =
      if l.contains a
      then (s.block_status, if s.log_blocked then blocked (redacted a) ∷ [] else [])
      else (pos 200, if s.log_allowed then allowed (redacted a) ∷ [] else [])

  -- `handleCheck` behind `observe`.
  unfoldable pub after_observe : Server → Option Lookup → Request → List Event → Outcome
  unfolding decide
  after_observe s none r events =
      if fail_open s.readiness
      then (record s { readiness = count_fail_open_allow s.readiness }, plain (pos 200), events)
      else (s, plain s.block_status, events)
  after_observe s (some l) r events =
      let (status, more) = decide s l r.headers (extract_client_ip parse_addr r.headers) in
      (s, plain status, events ++ more)

  unfoldable pub handle_check : Server → ℕ → Option Lookup → Request → Outcome
  unfolding after_observe
  handle_check s now l r =
      let (t, signals) = observe now l s.readiness in
      if not (is_get r)
      then (s, method_not_allowed, [])
      else after_observe (record s { readiness = t }) (usable_lookup l) r (map signal signals)

-- `int64(d / time.Second)`, which truncates towards zero.
abbrev pub whole_seconds : ℤ → ℤ
whole_seconds (pos d) = pos (d / second)
whole_seconds (negsuc d) = sub_ℕ 0 ((d + 1) / second)

abbrev len_of : Option Lookup → ℕ
len_of none = 0
len_of (some l) = l.len

unfoldable pub handle_healthz : Server → ℕ → ℕ → Option Lookup → Request → Outcome
handle_healthz s now later l r =
    let (t, signals) = observe now l s.readiness in
    let unready : Health = record {
      status = "empty";
      serving = serving false t;
      ever_ready = t.ever_ready;
      prefixes = none;
      empty_for_seconds = some (whole_seconds (window_since later t));
    } in
    let ready : Health = record {
      status = "ok";
      serving = serving_enforcing;
      ever_ready = true;
      prefixes = some (len_of l);
      empty_for_seconds = none;
    } in
    if not (is_get r) then (s, method_not_allowed, []) else (
      record s { readiness = t },
      (if usable l
          then record { status = pos 200; allow_get = false; body = health ready }
          else record { status = pos 503; allow_get = false; body = health unready }),
      map signal signals,
    )

-- One round of `heartbeatLoop`.
unfoldable pub beat : Server → ℕ → ℕ → Option Lookup → Server × List Event
beat s now later l =
    let (t, signals) = heartbeat now later l s.readiness in
    (record s { readiness = t }, map signal signals)

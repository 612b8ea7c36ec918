-- ===== src/Server/Readiness.antt =====
-- internal/server/readiness.go. A call is one step here, and Readiness/Threads has the steps of many
-- calls of `observe` at once. A reading of the clock, in nanoseconds since 1970, is an argument.
pub mod Observe
pub mod Threads
pub mod Counting
mod Examples
use text.Mathlib.Text.{◌==◌ as str_eq}
use bitblocker.Base.{
  ℕ, suc, ◌+◌, ◌-◌, ◌*◌, ◌/◌, ◌%◌, ◌^◌, String, Bool, true, false, not, ◌&&◌, Option, none, some,
  List, [], ◌∷◌, ◌++◌, ltb, ◌==◌, if◌then◌else◌,
}
use bitblocker.Base.Int.{ℤ, pos, negsuc, sub_ℕ}
use bitblocker.Netip.{Addr}

-- The interface `Lookup` of server.go; a nil interface is `none`.
pub record Lookup : Type 0 where
  pub contains : Addr → Bool
  pub len : ℕ

abbrev pub startup_fail_closed : String
startup_fail_closed = "fail-closed"

abbrev pub startup_fail_open : String
startup_fail_open = "fail-open"

abbrev pub second : ℕ
second = 1000000000

abbrev pub heartbeat_interval : ℕ
heartbeat_interval = 60 * second

abbrev pub serving_enforcing : String
serving_enforcing = "enforcing"

abbrev pub serving_deny_all : String
serving_deny_all = "deny-all"

abbrev pub serving_allow_all : String
serving_allow_all = "allow-all"

abbrev pub cause_never_ready : String
cause_never_ready = "no successful fetch since start"

abbrev pub cause_ready_then_empty : String
cause_ready_then_empty =
    "blocklist loaded but matched no configured countries — check block.countries"

-- The three log signals, with the attributes that the code gives them. A duration attribute is the
-- number of nanoseconds that the code renders; `none` is an attribute that is left out.
pub data Signal : Type 0 where
  unusable : (allowing : Bool) (mode : String) (ever_ready : Bool) (serving : String) → Signal
  recovered : (unusable_for : ℤ) (prefixes : ℕ) (allowed : Option ℕ) → Signal
  still_unusable :
      (mode serving : String) (ever_ready : Bool) (unusable_for : ℤ) (counts : Option (ℕ × ℕ))
      (likely_cause : String)
      → Signal

pub record Readiness : Type 0 where
  pub is_usable : Bool
  pub ever_ready : Bool
  pub unusable_since : ℕ
  pub fail_open_total : ℕ
  pub fail_open_since_heartbeat : ℕ
  pub fail_open_at_window_start : ℕ
  pub mode : String

-- uint64 arithmetic.
abbrev pub u64 : ℕ → ℕ
u64 n = n % 2 ^ 64

abbrev pub sub_u64 : ℕ → ℕ → ℕ
sub_u64 a b = (a + 2 ^ 64 - b) % 2 ^ 64

abbrev pub bool_eq : Bool → Bool → Bool
bool_eq true b = b
bool_eq false b = not b

unfoldable pub usable : Option Lookup → Bool
usable none = false
usable (some l) = ltb 0 l.len

unfoldable pub new_readiness : String → Readiness
new_readiness mode = record {
  is_usable = true;
  ever_ready = false;
  unusable_since = 0;
  fail_open_total = 0;
  fail_open_since_heartbeat = 0;
  fail_open_at_window_start = 0;
  mode = mode;
}

unfoldable pub fail_open : Readiness → Bool
fail_open t = str_eq t.mode startup_fail_open

unfoldable pub serving : Bool → Readiness → String
serving u t =
    if u then serving_enforcing else if fail_open t then serving_allow_all else serving_deny_all

unfoldable pub window_since : ℕ → Readiness → ℤ
window_since now t = if t.unusable_since == 0 then pos 0 else sub_ℕ now t.unusable_since

-- `Duration.Round(time.Second)`: to the nearest second, halves away from zero.
abbrev pub round_ℕ : ℕ → ℕ
round_ℕ d = let r = d % second in if ltb (r + r) second then d - r else d + (second - r)

abbrev pub round_second : ℤ → ℤ
round_second (pos d) = pos (round_ℕ d)
round_second (negsuc d) = sub_ℕ 0 (round_ℕ (suc d))

unfoldable pub window_duration : ℕ → Readiness → ℤ
window_duration now t = round_second (window_since now t)

unfoldable pub emit_unusable : ℕ → Readiness → Readiness × List Signal
emit_unusable now t =
    let t' = record t {
      unusable_since = now;
      fail_open_at_window_start = t.fail_open_total;
      fail_open_since_heartbeat = 0;
    } in
    (t', unusable (fail_open t') t'.mode t'.ever_ready (serving false t') ∷ [])

-- The nil case is not reached: `emitRecovered` runs on a usable lookup.
abbrev len_of : Option Lookup → ℕ
len_of none = 0
len_of (some l) = l.len

unfoldable pub emit_recovered : ℕ → Option Lookup → Readiness → Readiness × List Signal
emit_recovered now l t =
    let allowed =
      (if fail_open t
        then some (sub_u64 t.fail_open_total t.fail_open_at_window_start)
        else none) in
    (record t { unusable_since = 0 }, recovered (window_duration now t) (len_of l) allowed ∷ [])

-- The part of `observe` under the mutex.
unfoldable pub locked : ℕ → Option Lookup → Bool → Readiness → Readiness × List Signal
locked now l u t =
    if bool_eq t.is_usable u
    then (t, [])
    else let (t', signals) = (if u then emit_recovered now l t else emit_unusable now t) in
      (record t' { is_usable = u }, signals)

abbrev pub latch : Bool → Readiness → Readiness
latch u t = if u && not t.ever_ready then record t { ever_ready = true } else t

-- Each `return u` of the code returns `usable l`, which the callers below compute once more.
unfoldable pub observe : ℕ → Option Lookup → Readiness → Readiness × List Signal
unfolding locked emit_recovered emit_unusable
observe now l t =
    let u = usable l in
    let t' = latch u t in if bool_eq t'.is_usable u then (t', []) else locked now l u t'

abbrev pub cause : Bool → String
cause ever_ready = if ever_ready then cause_ready_then_empty else cause_never_ready

unfoldable pub still : ℕ → Readiness → Readiness × List Signal
still now t =
    let counts =
      (if fail_open t then some (t.fail_open_total, t.fail_open_since_heartbeat) else none) in
    (
      (if fail_open t then record t { fail_open_since_heartbeat = 0 } else t),
      still_unusable t.mode (serving false t) t.ever_ready (window_duration now t) counts
            (cause t.ever_ready)
          ∷ [],
    )

-- The clock is read once in `observe` and once more, later, for the duration.
unfoldable pub heartbeat : ℕ → ℕ → Option Lookup → Readiness → Readiness × List Signal
unfolding observe still
heartbeat now later l t =
    let (t', signals) = observe now l t in
    let (t'', more) = still later t' in if usable l then (t', signals) else (t'', signals ++ more)

unfoldable pub count_fail_open_allow : Readiness → Readiness
count_fail_open_allow t = record t {
  fail_open_total = u64 (t.fail_open_total + 1);
  fail_open_since_heartbeat = u64 (t.fail_open_since_heartbeat + 1);
}

-- ===== src/Server/Handlers/Counts.antt =====
-- internal/server/readiness.go: the numbers of let-through requests that the log lines report under
-- fail-open, over any sequence of calls.
pub mod Steps
use mathlib.Core.List.{append_assoc, append-nil, map-append}
use bitblocker.Base.{
  ℕ, ◌+◌, ◌^◌, ◌<◌, ◌≡◌, refl, sym, ap, ◌∙◌, Bool, true, false, not, ◌&&◌, Option, none, some, List,
  [], ◌∷◌, ◌++◌, map, arith, if◌then◌else◌, Bool-cases, inl, inr,
}
use bitblocker.Netip.{Addr}
use bitblocker.Server.Readiness.{
  Lookup, Readiness, u64, sub_u64, recovered, still_unusable, usable, fail_open, observe, heartbeat,
  still, Signal, count_fail_open_allow,
}
use bitblocker.Server.ClientIp.{Text, Headers, extract_client_ip}
use bitblocker.Server.Handlers.{
  Server, Request, Event, decide, signal, is_get, usable_lookup, after_observe, handle_check,
  handle_healthz, beat,
}
use bitblocker.Server.Handlers.Runs.{Call, check, probe, tick, step, run}

-- The counts in terms of the calls alone: of the requests let through since the blocklist became unusable,
-- and since the last line that told of them.
pub record Tally : Type 0 where
  pub is_usable : Bool
  pub window : ℕ
  pub since : ℕ

abbrev pub after_seeing : Bool → Tally → Tally
after_seeing u k =
    if k.is_usable && not u
    then record { is_usable = false; window = 0; since = 0 }
    else record k { is_usable = u }

abbrev pub let_through : Tally → Tally
let_through k = record k { window = k.window + 1; since = k.since + 1 }

abbrev pub tally : Call → Tally → Tally
tally (check now l r) k =
    let seen = after_seeing (usable l) k in
    if not (is_get r) then k else if usable l then seen else let_through seen
tally (probe now later l r) k = if is_get r then after_seeing (usable l) k else k
tally (tick now later l) k =
    let seen = after_seeing (usable l) k in if usable l then seen else record seen { since = 0 }

-- What is told of the counts: a recovery tells the window's, a heartbeat the one since the last line.
abbrev pub told_by : Bool → Tally → List ℕ
told_by u k = if u && not k.is_usable then k.window ∷ [] else []

abbrev pub told : Call → Tally → List ℕ
told (check now l r) k = if is_get r then told_by (usable l) k else []
told (probe now later l r) k = if is_get r then told_by (usable l) k else []
told (tick now later l) k =
    told_by (usable l) k ++ (if usable l then [] else (after_seeing (usable l) k).since ∷ [])

unfoldable pub told_all : Tally → List Call → List ℕ
told_all k [] = []
told_all k (c ∷ cs) = told c k ++ told_all (tally c k) cs

-- The numbers in the log.
abbrev pub number : Event → List ℕ
number (signal (recovered d p (some n))) = n ∷ []
number (signal (still_unusable m v e d (some (n, k)) c)) = k ∷ []
number _ = []

unfoldable pub numbers : List Event → List ℕ
numbers [] = []
numbers (e ∷ es) = number e ++ numbers es

pub numbers-append : (xs ys : List Event) → numbers (xs ++ ys) ≡ numbers xs ++ numbers ys
unfolding numbers
numbers-append [] ys = refl
numbers-append (x ∷ xs) ys =
    rw (numbers-append xs ys) (sym (append_assoc (number x) (numbers xs) (numbers ys)))

-- A tracker under fail-open whose counters are those of a tally.
pub record Counts (k : Tally) (t : Readiness) : Type 0 where
  pub opens : fail_open t ≡ true
  pub same_flag : t.is_usable ≡ k.is_usable
  pub total_small : t.fail_open_total < 2 ^ 64
  pub start_small : t.fail_open_at_window_start < 2 ^ 64
  pub since_last : t.fail_open_since_heartbeat ≡ u64 k.since
  pub since_start :
      k.is_usable ≡ false → sub_u64 t.fail_open_total t.fail_open_at_window_start ≡ u64 k.window

pub Counts-observe :
    (now : ℕ) (l : Option Lookup) (k : Tally) (t : Readiness)
    → Counts k t
    → Counts (after_seeing (usable l) k) (observe now l t).0
      × (numbers (map signal (observe now l t).1) ≡ map u64 (told_by (usable l) k))
unfolding observe numbers fail_open
Counts-observe now l k t v = ground arith

pub Counts-allow :
    (k : Tally) (t : Readiness) → Counts k t → Counts (let_through k) (count_fail_open_allow t)
unfolding count_fail_open_allow fail_open
Counts-allow k t v = ground arith

pub Counts-still :
    (now : ℕ) (k : Tally) (t : Readiness)
    → Counts k t
    → Counts (record k { since = 0 }) (still now t).0
      × (numbers (map signal (still now t).1) ≡ u64 k.since ∷ [])
unfolding still numbers fail_open
Counts-still now k t v = ground arith

-- What a heartbeat comes to behind its observation.
pub Counts-beat :
    (later : ℕ) (b : Bool) (k : Tally) (t : Readiness) (es : List Signal) (xs : List ℕ)
    → Counts k t
    → numbers (map signal es) ≡ map u64 xs
    → let (t', more) = still later t in
      let (after, signals) : Readiness × List Signal = (if b then (t, es) else (t', es ++ more)) in
      Counts (if b then k else record k { since = 0 }) after
      × (numbers (map signal signals) ≡ map u64 (xs ++ (if b then [] else k.since ∷ [])))
Counts-beat later true k t es xs v e = (v, e ∙ sym (ap (map u64) (append-nil xs)))
Counts-beat later false k t es xs v e =
    let (after, tells) = Counts-still later k t v in
    (
      after,
      rw (
        map-append signal es (still later t).1,
        numbers-append (map signal es) (map signal (still later t).1),
        map-append u64 xs (k.since ∷ []),
        e,
        tells,
      ),
    )

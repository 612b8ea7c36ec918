-- ===== src/Server/Handlers/Runs.antt =====
-- The signals and counters over any sequence of requests, probes and heartbeats (server.go and
-- readiness.go), each call with the lookup that it read.
use native.Mathlib.Nat.{add-zero}
use mathlib.Core.List.{append-nil}
use bitblocker.Base.{
  ℕ, ◌+◌, ◌≡◌, refl, ◌∙◌, Bool, not, ◌&&◌, Option, none, some, List, [], ◌∷◌, ◌++◌, map, arith,
  if◌then◌else◌,
}
use bitblocker.Netip.{Addr}
use bitblocker.Server.Readiness.{Lookup, u64, usable, fail_open, observe, count_fail_open_allow}
use bitblocker.Server.Readiness.Observe.{is_usable-observe, is_usable-heartbeat}
use bitblocker.Server.Handlers.Events.{
  edges, beats, changes, last_or, edges-none, changes-none, edges-append, beats-append,
  edges-observe, edges-heartbeat,
}
use bitblocker.Server.ClientIp.{extract_client_ip, Text, Headers}
use bitblocker.Server.Handlers.{
  Server, Request, Event, signal, is_get, handle_check, handle_healthz, beat, decide, after_observe,
  usable_lookup,
}

pub data Call : Type 0 where
  check : (now : ℕ) → Option Lookup → Request → Call
  probe : (now later : ℕ) → Option Lookup → Request → Call
  tick : (now later : ℕ) → Option Lookup → Call

-- The readiness predicate that a call observes; a request that is not a GET observes none.
abbrev pub observed : Call → List Bool
observed (check now l r) = if is_get r then usable l ∷ [] else []
observed (probe now later l r) = if is_get r then usable l ∷ [] else []
observed (tick now later l) = usable l ∷ []

module _ (parse_addr : Text → Option Addr) (redacted : Addr → Text) where
  unfoldable pub step : Server → Call → Server × List Event
  step s (check now l r) =
      let (s', _, events) = handle_check parse_addr redacted s now l r in (s', events)
  step s (probe now later l r) =
      let (s', _, events) = handle_healthz s now later l r in (s', events)
  step s (tick now later l) = beat s now later l

  unfoldable pub run : Server → List Call → Server × List Event
  run s [] = (s, [])
  run s (c ∷ cs) =
      let (s', events) = step s c in let (s'', more) = run s' cs in (s'', events ++ more)

  -- A decision adds no readiness signal.
  quiet-decide :
      (s : Server) (l : Lookup) (h : Headers) (a : Option Addr)
      → let events = (decide parse_addr redacted s l h a).1 in
        (edges events ≡ []) × (beats events ≡ 0)
  unfolding decide edges beats
  quiet-decide s l h none = (refl, refl)
  quiet-decide s l h (some a) = ground arith

  pub quiet-after_observe :
      (s : Server) (l : Option Lookup) (r : Request) (es : List Event)
      → let events = (after_observe parse_addr redacted s l r es).2 in
        (edges events ≡ edges es) × (beats events ≡ beats es)
  unfolding after_observe
  quiet-after_observe s none r es = ground arith
  quiet-after_observe s (some l) r es =
      let (quiet, still_quiet) =
        quiet-decide s l r.headers (extract_client_ip parse_addr r.headers) in
      (
        edges-append es _ ∙ rw quiet (append-nil (edges es)),
        beats-append es _ ∙ rw still_quiet (add-zero (beats es)),
      )

  pub after_observe-readiness :
      (s : Server) (l : Option Lookup) (r : Request) (es : List Event)
      → let t = (after_observe parse_addr redacted s l r es).0.readiness in
        (t.is_usable ≡ s.readiness.is_usable) × (t.ever_ready ≡ s.readiness.ever_ready)
  unfolding after_observe count_fail_open_allow
  after_observe-readiness s none r es = ground arith
  after_observe-readiness s (some l) r es = ground arith

  pub total-after_observe :
      (s : Server) (l : Option Lookup) (r : Request) (es : List Event)
      → (after_observe parse_addr redacted s (usable_lookup l) r es).0.readiness.fail_open_total ≡ (
          if fail_open s.readiness && not (usable l)
          then u64 (s.readiness.fail_open_total + 1)
          else s.readiness.fail_open_total)
  unfolding after_observe count_fail_open_allow usable
  total-after_observe s none r es = ground arith
  total-after_observe s (some l) r es = ground arith

  pub fail_open-after_observe :
      (s : Server) (l : Option Lookup) (r : Request) (es : List Event)
      → fail_open (after_observe parse_addr redacted s l r es).0.readiness ≡ fail_open s.readiness
  unfolding after_observe count_fail_open_allow fail_open
  fail_open-after_observe s none r es = ground arith
  fail_open-after_observe s (some l) r es = ground arith

  pub is_usable-step :
      (s : Server) (c : Call)
      → (step s c).0.readiness.is_usable ≡ last_or s.readiness.is_usable (observed c)
  unfolding step handle_check handle_healthz beat last_or
  is_usable-step s (check now l r) = ground (
    arith,
    after_observe-readiness (record s { readiness = (observe now l s.readiness).0 })
        (usable_lookup l) r (map signal (observe now l s.readiness).1),
    is_usable-observe now l s.readiness,
  )
  is_usable-step s (probe now later l r) = ground (arith, is_usable-observe now l s.readiness)
  is_usable-step s (tick now later l) = is_usable-heartbeat now l s.readiness later

  pub edges-step :
      (s : Server) (c : Call) → edges (step s c).1 ≡ changes s.readiness.is_usable (observed c)
  unfolding step handle_check handle_healthz beat
  edges-step s (check now l r) = ground (
    arith,
    quiet-after_observe (record s { readiness = (observe now l s.readiness).0 }) (usable_lookup l) r
        (map signal (observe now l s.readiness).1),
    edges-observe now l s.readiness,
    edges-none,
    changes-none s.readiness.is_usable,
  )
  edges-step s (probe now later l r) =
      ground
        (arith, edges-observe now l s.readiness, edges-none, changes-none s.readiness.is_usable)
  edges-step s (tick now later l) = edges-heartbeat now l s.readiness later

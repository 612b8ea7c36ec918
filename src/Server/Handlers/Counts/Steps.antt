-- ===== src/Server/Handlers/Counts/Steps.antt =====
-- The handlers and the heartbeat of internal/server, call by call, against the tally of requests let
-- through under fail-open.
use mathlib.Core.List.{append-nil, map-append}
use bitblocker.Base.{
  ℕ, ◌≡◌, refl, ◌∙◌, Bool, true, false, Option, none, some, List, [], ◌∷◌, map, arith,
  if◌then◌else◌, Bool-cases, inl, inr,
}
use bitblocker.Netip.{Addr}
use bitblocker.Server.Readiness.{Lookup, u64, usable, observe, heartbeat}
use bitblocker.Server.ClientIp.{Text, Headers, extract_client_ip}
use bitblocker.Server.Handlers.{
  Server, Request, Event, decide, signal, is_get, usable_lookup, after_observe, handle_check,
  handle_healthz, beat,
}
use bitblocker.Server.Handlers.Runs.{Call, check, probe, tick, step, run}
use bitblocker.Server.Handlers.Counts.{
  Tally, after_seeing, let_through, tally, told_by, told, told_all, numbers, numbers-append, Counts,
  Counts-observe, Counts-allow, Counts-beat,
}

module _ (parse_addr : Text → Option Addr) (redacted : Addr → Text) where
  numbers-decide :
      (s : Server) (l : Lookup) (h : Headers) (a : Option Addr)
      → numbers (decide parse_addr redacted s l h a).1 ≡ []
  unfolding decide numbers
  numbers-decide s l h none = refl
  numbers-decide s l h (some a) = ground arith

  -- A decision neither counts nor tells a number.
  Counts-decided :
      (k : Tally) (s : Server) (l : Lookup) (r : Request) (es : List Event)
      → Counts k s.readiness
      → Counts k (after_observe parse_addr redacted s (some l) r es).0.readiness
        × (numbers (after_observe parse_addr redacted s (some l) r es).2 ≡ numbers es)
  unfolding after_observe
  Counts-decided k s l r es v =
      let a = extract_client_ip parse_addr r.headers in
      (v, numbers-append es _ ∙ rw (numbers-decide s l r.headers a) (append-nil (numbers es)))

  Counts-undecided :
      (k : Tally) (s : Server) (r : Request) (es : List Event)
      → Counts k s.readiness
      → Counts (let_through k) (after_observe parse_addr redacted s none r es).0.readiness
        × (numbers (after_observe parse_addr redacted s none r es).2 ≡ numbers es)
  unfolding after_observe
  Counts-undecided k s r es v = rw v.opens (Counts-allow k s.readiness v, refl)

  -- What a request comes to behind the observation.
  Counts-after :
      (l : Option Lookup) (b : Bool) (k : Tally) (s : Server) (r : Request) (es : List Event)
      → usable l ≡ b
      → Counts k s.readiness
      → Counts
          (if usable l then k else let_through k)
          (after_observe parse_addr redacted s (usable_lookup l) r es).0.readiness
        × (numbers (after_observe parse_addr redacted s (usable_lookup l) r es).2 ≡ numbers es)
  unfolding usable
  Counts-after none b k s r es u v = Counts-undecided k s r es v
  Counts-after (some x) true k s r es u v = rw u (Counts-decided k s x r es v)
  Counts-after (some x) false k s r es u v = rw u (Counts-undecided k s r es v)

  Counts-check :
      (now : ℕ) (l : Option Lookup) (r : Request) (k : Tally) (s : Server)
      → Counts k s.readiness
      → Counts (tally (check now l r) k) (handle_check parse_addr redacted s now l r).0.readiness
        × (numbers (handle_check parse_addr redacted s now l r).2
            ≡ map u64 (told (check now l r) k))
  unfolding handle_check numbers
  Counts-check now l r k s v = elim (Bool-cases (is_get r)) [
    | inl g ↦
        let (seen, tells) = Counts-observe now l k s.readiness v in
        let (after, quiet) =
          Counts-after l (usable l) (after_seeing (usable l) k)
            (record s { readiness = (observe now l s.readiness).0 }) r
            (map signal (observe now l s.readiness).1) refl seen in
        rw g (after, quiet ∙ tells)
    | inr g ↦ rw g (v, refl)
  ]

  Counts-probe :
      (now later : ℕ) (l : Option Lookup) (r : Request) (k : Tally) (s : Server)
      → Counts k s.readiness
      → Counts (tally (probe now later l r) k) (handle_healthz s now later l r).0.readiness
        × (numbers (handle_healthz s now later l r).2 ≡ map u64 (told (probe now later l r) k))
  unfolding handle_healthz numbers
  Counts-probe now later l r k s v = elim (Bool-cases (is_get r)) [
    | inl g ↦ rw g (Counts-observe now l k s.readiness v)
    | inr g ↦ rw g (v, refl)
  ]

  Counts-tick :
      (now later : ℕ) (l : Option Lookup) (k : Tally) (s : Server)
      → Counts k s.readiness
      → Counts (tally (tick now later l) k) (beat s now later l).0.readiness
        × (numbers (beat s now later l).1 ≡ map u64 (told (tick now later l) k))
  unfolding beat heartbeat
  Counts-tick now later l k s v =
      let (seen, tells) = Counts-observe now l k s.readiness v in
      Counts-beat later (usable l) (after_seeing (usable l) k) (observe now l s.readiness).0
        (observe now l s.readiness).1 (told_by (usable l) k) seen tells

  Counts-step :
      (c : Call) (k : Tally) (s : Server)
      → Counts k s.readiness
      → Counts (tally c k) (step parse_addr redacted s c).0.readiness
        × (numbers (step parse_addr redacted s c).1 ≡ map u64 (told c k))
  unfolding step
  Counts-step (check now l r) k s v = Counts-check now l r k s v
  Counts-step (probe now later l r) k s v = Counts-probe now later l r k s v
  Counts-step (tick now later l) k s v = Counts-tick now later l k s v

  -- Under fail-open, over any sequence of calls from a server whose counters are those of a tally, the
  -- numbers in the log are, in order and modulo 2^64: at each recovery the requests let through since the
  -- blocklist became unusable, at each heartbeat over an unusable blocklist those since the last line.
  pub numbers-run :
      (k : Tally) (s : Server) (cs : List Call)
      → Counts k s.readiness
      → numbers (run parse_addr redacted s cs).1 ≡ map u64 (told_all k cs)
  unfolding run numbers told_all
  numbers-run k s [] v = refl
  numbers-run k s (c ∷ cs) v =
      let s' = step parse_addr redacted s c in
      let (after, tells) = Counts-step c k s v in
      rw (
        numbers-append s'.1 (run parse_addr redacted s'.0 cs).1,
        map-append u64 (told c k) (told_all (tally c k) cs),
        tells,
        numbers-run (tally c k) s'.0 cs after,
      )

-- ===== src/Server/Handlers/Totals.antt =====
-- The log and the counters after any sequence of calls of the handlers and of the heartbeat.
use native.Mathlib.Nat.{mod-eq_of_lt, add-zero}
use bitblocker.Base.{
  ℕ, ◌+◌, ◌^◌, ◌<◌, ◌≡◌, refl, sym, ◌∙◌, Bool, true, false, not, ◌&&◌, ◌||◌, Option, List, [], ◌∷◌,
  ◌++◌, map, any, arith, if◌then◌else◌,
}
use bitblocker.Netip.{Addr}
use bitblocker.Server.Readiness.{u64, usable, fail_open, observe}
use bitblocker.Server.Readiness.Observe.{
  fail_open-observe, fail_open-heartbeat, ever_ready-observe, ever_ready-heartbeat,
  fail_open_total-observe, fail_open_total-heartbeat,
}
use bitblocker.Server.ClientIp.{Text}
use bitblocker.Server.Handlers.{
  Server, signal, is_get, handle_check, handle_healthz, beat, usable_lookup,
}
use bitblocker.Server.Handlers.Events.{
  edges, beats, changes, last_or, edges-none, beats-none, changes-none, edges-append, beats-append,
  changes-append, last_or-append, beats-observe, beats-heartbeat,
}
use bitblocker.Server.Handlers.Runs.{
  Call, check, probe, tick, observed, step, run, is_usable-step, edges-step, quiet-after_observe,
  after_observe-readiness, total-after_observe, fail_open-after_observe,
}

unfoldable pub observed_all : List Call → List Bool
observed_all [] = []
observed_all (c ∷ cs) = observed c ++ observed_all cs

-- Heartbeats that find the blocklist unusable.
abbrev idle_tick : Call → ℕ
idle_tick (tick now later l) = if usable l then 0 else 1
idle_tick _ = 0

idle_ticks : List Call → ℕ
idle_ticks [] = 0
idle_ticks (c ∷ cs) = idle_tick c + idle_ticks cs

-- `/check` requests that find the blocklist unusable.
abbrev unready_check : Call → ℕ
unready_check (check now l r) = if is_get r && not (usable l) then 1 else 0
unready_check _ = 0

pub unready_checks : List Call → ℕ
unready_checks [] = 0
unready_checks (c ∷ cs) = unready_check c + unready_checks cs

abbrev any_true : List Bool → Bool
any_true = any (λ b. b)

any_true-append : (xs ys : List Bool) → any_true (xs ++ ys) ≡ (any_true xs || any_true ys)
any_true-append [] ys = refl
any_true-append (true ∷ xs) ys = refl
any_true-append (false ∷ xs) ys = any_true-append xs ys

module _ (parse_addr : Text → Option Addr) (redacted : Addr → Text) where
  is_usable-run :
      (s : Server) (cs : List Call)
      → (run parse_addr redacted s cs).0.readiness.is_usable
        ≡ last_or s.readiness.is_usable (observed_all cs)
  unfolding run last_or observed_all
  is_usable-run s [] = refl
  is_usable-run s (c ∷ cs) =
      is_usable-run (step parse_addr redacted s c).0 cs
      ∙ rw (is_usable-step parse_addr redacted s c)
          (sym (last_or-append s.readiness.is_usable (observed c) (observed_all cs)))

  -- The transition lines that the calls log are the changes of the readiness predicate from one
  -- observation to the next: each change is reported once, and nothing else is.
  pub edges-run :
      (s : Server) (cs : List Call)
      → edges (run parse_addr redacted s cs).1 ≡ changes s.readiness.is_usable (observed_all cs)
  unfolding run observed_all
  edges-run s [] = edges-none ∙ sym (changes-none s.readiness.is_usable)
  edges-run s (c ∷ cs) =
      edges-append (step parse_addr redacted s c).1 _
      ∙ rw
          (
            edges-step parse_addr redacted s c,
            edges-run (step parse_addr redacted s c).0 cs,
            is_usable-step parse_addr redacted s c,
          )
          (sym (changes-append s.readiness.is_usable (observed c) (observed_all cs)))

  beats-step : (s : Server) (c : Call) → beats (step parse_addr redacted s c).1 ≡ idle_tick c
  unfolding step handle_check handle_healthz beat
  beats-step s (check now l r) = ground (
    arith,
    quiet-after_observe parse_addr redacted (record s { readiness = (observe now l s.readiness).0 })
        (usable_lookup l) r (map signal (observe now l s.readiness).1),
    beats-observe now l s.readiness,
    beats-none,
  )
  beats-step s (probe now later l r) = ground (arith, beats-observe now l s.readiness, beats-none)
  beats-step s (tick now later l) = beats-heartbeat now l s.readiness later

  -- The recurring error is logged once for each heartbeat that finds the blocklist unusable, and by
  -- nothing else.
  beats-run : (s : Server) (cs : List Call) → beats (run parse_addr redacted s cs).1 ≡ idle_ticks cs
  unfolding run idle_ticks
  beats-run s [] = beats-none
  beats-run s (c ∷ cs) =
      beats-append (step parse_addr redacted s c).1 _
      ∙ rw (beats-step s c, beats-run (step parse_addr redacted s c).0 cs)

  ever_ready-step :
      (s : Server) (c : Call)
      → (step parse_addr redacted s c).0.readiness.ever_ready
        ≡ (any_true (observed c) || s.readiness.ever_ready)
  unfolding step handle_check handle_healthz beat
  ever_ready-step s (check now l r) = ground (
    arith,
    after_observe-readiness parse_addr redacted
        (record s { readiness = (observe now l s.readiness).0 }) (usable_lookup l) r
        (map signal (observe now l s.readiness).1),
    ever_ready-observe now l s.readiness,
  )
  ever_ready-step s (probe now later l r) = ground (arith, ever_ready-observe now l s.readiness)
  ever_ready-step s (tick now later l) =
      ground (arith, ever_ready-heartbeat now l s.readiness later)

  -- After any calls `ever_ready` is set exactly if it was set before them or one of their
  -- observations was usable.
  pub ever_ready-run :
      (s : Server) (cs : List Call)
      → (run parse_addr redacted s cs).0.readiness.ever_ready
        ≡ (any_true (observed_all cs) || s.readiness.ever_ready)
  unfolding run observed_all
  ever_ready-run s [] = refl
  ever_ready-run s (c ∷ cs) =
      ever_ready-run (step parse_addr redacted s c).0 cs
      ∙ rw (ever_ready-step s c, any_true-append (observed c) (observed_all cs))
          (regroup (any_true (observed c)) (any_true (observed_all cs)) s.readiness.ever_ready)
    where
      regroup : (a b e : Bool) → (b || (a || e)) ≡ ((a || b) || e)
      regroup a b e = ground arith

  fail_open-step :
      (s : Server) (c : Call)
      → fail_open (step parse_addr redacted s c).0.readiness ≡ fail_open s.readiness
  unfolding step handle_check handle_healthz beat
  fail_open-step s (check now l r) = ground (
    arith,
    fail_open-after_observe parse_addr redacted
        (record s { readiness = (observe now l s.readiness).0 }) (usable_lookup l) r
        (map signal (observe now l s.readiness).1),
    fail_open-observe now l s.readiness,
  )
  fail_open-step s (probe now later l r) = ground (arith, fail_open-observe now l s.readiness)
  fail_open-step s (tick now later l) = fail_open-heartbeat now l s.readiness later

  total-step :
      (s : Server) (c : Call)
      → fail_open s.readiness ≡ true
      → s.readiness.fail_open_total < 2 ^ 64
      → (step parse_addr redacted s c).0.readiness.fail_open_total
        ≡ u64 (s.readiness.fail_open_total + unready_check c)
  unfolding step handle_check handle_healthz beat
  total-step s (check now l r) o h = ground (
    arith,
    total-after_observe parse_addr redacted (record s { readiness = (observe now l s.readiness).0 })
        l r (map signal (observe now l s.readiness).1),
    fail_open-observe now l s.readiness,
    fail_open_total-observe now l s.readiness,
  )
  total-step s (probe now later l r) o h = ground (arith, fail_open_total-observe now l s.readiness)
  total-step s (tick now later l) o h =
      ground (arith, fail_open_total-heartbeat now l s.readiness later)

  -- Under fail-open, from a total below 2^64, the total grows by the number of requests that found
  -- the blocklist unusable, modulo 2^64.
  fail_open_total-run :
      (s : Server) (cs : List Call)
      → fail_open s.readiness ≡ true
      → s.readiness.fail_open_total < 2 ^ 64
      → (run parse_addr redacted s cs).0.readiness.fail_open_total
        ≡ u64 (s.readiness.fail_open_total + unready_checks cs)
  unfolding run unready_checks
  fail_open_total-run s [] o h = sym (rw add-zero (mod-eq_of_lt h))
  fail_open_total-run s (c ∷ cs) o h =
      let next = step parse_addr redacted s c in
      fail_open_total-run next.0 cs (fail_open-step s c ∙ o) (rw (total-step s c o h) (omega arith))
      ∙ rw (total-step s c o h) (omega arith)

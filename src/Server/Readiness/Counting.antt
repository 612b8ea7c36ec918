-- ===== src/Server/Readiness/Counting.antt =====
-- internal/server/readiness.go: the counters of let-through requests under fail-open, with many
-- goroutines at once. A step is one atomic operation on a counter. The two halves of `observe` under the
-- mutex run one at a time, and take turns.
pub mod Exact
mod Examples
use bitblocker.Base.{ℕ, zero, suc, ◌+◌, ◌≡◌, Option, none, some, List, [], ◌∷◌, ◌++◌}
use bitblocker.Server.Readiness.{u64, sub_u64}

-- Where the last holder of the mutex got to: the list was seen usable; in `emitUnusable`, behind the load
-- of the total or behind the snapshot; the list was seen unusable; in `emitRecovered`, behind the load of
-- the total.
pub data Phase : Type 0 where
  enforcing snapshot window : Phase
  opening closing : (total : ℕ) → Phase

-- The numbers of a log line.
pub data Told : Type 0 where
  at_heartbeat : (total since : ℕ) → Told
  at_recovery : (allowed : ℕ) → Told

pub record Counters : Type 0 where
  pub fail_open_total : ℕ
  pub fail_open_since_heartbeat : ℕ
  pub fail_open_at_window_start : ℕ
  -- the calls of `countFailOpenAllow` between their two additions
  pub between : ℕ
  pub phase : Phase
  -- what the heartbeat has loaded before its `Swap`
  pub loaded : Option ℕ
  pub told : List Told

abbrev pub start : Counters
start = record {
  fail_open_total = 0;
  fail_open_since_heartbeat = 0;
  fail_open_at_window_start = 0;
  between = 0;
  phase = enforcing;
  loaded = none;
  told = [];
}

pub data Step (s : Counters) : Counters → Type 0 where
  -- `countFailOpenAllow`
  add_total :
      Step s (record s { fail_open_total = u64 (s.fail_open_total + 1); between = suc s.between })
  add_since :
      (n : ℕ)
      → s.between ≡ suc n
      → Step s (record s {
        fail_open_since_heartbeat = u64 (s.fail_open_since_heartbeat + 1);
        between = n;
      })
  -- `emitUnusable`
  load_start : s.phase ≡ enforcing → Step s (record s { phase = opening s.fail_open_total })
  store_start :
      (n : ℕ)
      → s.phase ≡ opening n
      → Step s (record s { fail_open_at_window_start = n; phase = snapshot })
  reset : s.phase ≡ snapshot → Step s (record s { fail_open_since_heartbeat = 0; phase = window })
  -- `emitRecovered`
  load_end : s.phase ≡ window → Step s (record s { phase = closing s.fail_open_total })
  recover :
      (n : ℕ)
      → s.phase ≡ closing n
      → Step s (record s {
        phase = enforcing;
        told = s.told ++ at_recovery (sub_u64 n s.fail_open_at_window_start) ∷ [];
      })
  -- `heartbeat`, which runs in one goroutine
  load_total : s.loaded ≡ none → Step s (record s { loaded = some s.fail_open_total })
  swap :
      (n : ℕ)
      → s.loaded ≡ some n
      → Step s (record s {
        fail_open_since_heartbeat = 0;
        loaded = none;
        told = s.told ++ at_heartbeat n s.fail_open_since_heartbeat ∷ [];
      })

pub data Reachable : Counters → Type 0 where
  started : Reachable start
  stepped : (s t : Counters) → Reachable s → Step s t → Reachable t

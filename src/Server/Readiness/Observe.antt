-- ===== src/Server/Readiness/Observe.antt =====
-- What each operation of the tracker leaves alone, and what it leaves behind.
use bitblocker.Base.{ℕ, ◌≡◌, ◌||◌, Option, arith}
use bitblocker.Server.Readiness.{Lookup, Readiness, usable, fail_open, observe, heartbeat}

module _ (now : ℕ) (l : Option Lookup) (t : Readiness) where
  pub mode-observe : (observe now l t).0.mode ≡ t.mode
  unfolding observe
  mode-observe = ground arith

  pub fail_open-observe : fail_open (observe now l t).0 ≡ fail_open t
  unfolding fail_open
  fail_open-observe = ground (arith, mode-observe)

  -- `observe` stores the predicate that it was given.
  pub is_usable-observe : (observe now l t).0.is_usable ≡ usable l
  unfolding observe
  is_usable-observe = ground arith

  pub ever_ready-observe : (observe now l t).0.ever_ready ≡ (usable l || t.ever_ready)
  unfolding observe
  ever_ready-observe = ground arith

  pub fail_open_total-observe : (observe now l t).0.fail_open_total ≡ t.fail_open_total
  unfolding observe
  fail_open_total-observe = ground arith

  module _ (later : ℕ) where
    pub mode-heartbeat : (heartbeat now later l t).0.mode ≡ t.mode
    unfolding heartbeat
    mode-heartbeat = ground arith

    pub fail_open-heartbeat : fail_open (heartbeat now later l t).0 ≡ fail_open t
    unfolding fail_open
    fail_open-heartbeat = ground (arith, mode-heartbeat)

    pub is_usable-heartbeat : (heartbeat now later l t).0.is_usable ≡ usable l
    unfolding heartbeat
    is_usable-heartbeat = ground arith

    pub ever_ready-heartbeat : (heartbeat now later l t).0.ever_ready ≡ (usable l || t.ever_ready)
    unfolding heartbeat
    ever_ready-heartbeat = ground arith

    pub fail_open_total-heartbeat : (heartbeat now later l t).0.fail_open_total ≡ t.fail_open_total
    unfolding heartbeat
    fail_open_total-heartbeat = ground arith

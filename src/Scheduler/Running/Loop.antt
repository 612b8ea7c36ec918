-- ===== src/Scheduler/Running/Loop.antt =====
-- internal/scheduler/scheduler.go: where the loop of `runColdStart` gets to in a world, and how it ends.
use mathlib.Core.List.{append-nil}
use native.Mathlib.Decide.{ℕ_discrete}
use bitblocker.Base.{
  ℕ, zero, suc, ◌+◌, ◌<◌, ◌≡◌, sym, ap, subst, Bool, true, false, some, List, [], ◌∷◌, ◌++◌, ◌==◌,
  arith,
}
use bitblocker.Scheduler.{
  RetryPolicy, World, Line, cached_active, budget_exhausted, retrying, backoff, is_last,
  interrupted, refreshed, served_by_cache, gave_up, Ending, Report, report, cold_start_from,
}
use bitblocker.Scheduler.ColdStart.{goes_on}
use bitblocker.Scheduler.Running.Met.{on_test, on_refresh, on_sleep}

-- The lines of n failed attempts, from the attempt i on.
unfoldable pub retry_lines : RetryPolicy → ℕ → ℕ → List Line
retry_lines p i zero = []
retry_lines p i (suc n) = retrying (i + 1) (backoff p i) ∷ retry_lines p (suc i) n

module _ (p : RetryPolicy) where
  pub retry_lines-suc :
      (n i k : ℕ)
      → k ≡ i + n
      → retry_lines p i (suc n) ≡ retry_lines p i n ++ retrying (k + 1) (backoff p k) ∷ []
  unfolding retry_lines
  retry_lines-suc zero i k e = ap (λ j. retrying (j + 1) (backoff p j) ∷ []) (omega arith)
  retry_lines-suc (suc n) i k e =
      ap (λ ls. retrying (i + 1) (backoff p i) ∷ ls) (retry_lines-suc n (suc i) k (omega arith))

  -- The attempts before k each lead to the next one.
  abbrev pub WentOn : World → ℕ → Type 0
  WentOn w k = (j : ℕ) → j < k → goes_on p w j ≡ true

  WentOn-suc : (w : World) (k : ℕ) → WentOn w k → goes_on p w k ≡ true → WentOn w (suc k)
  WentOn-suc w k h g j lt = elim (ℕ_discrete j k) [ yes e ↦ rw e g | no ne ↦ h j (omega arith) ]

  -- What is met at the attempt k changes nothing before it.
  pub WentOn-on_test : (w : World) (k : ℕ) (c : Bool) → WentOn w k → WentOn (on_test k c w) k
  WentOn-on_test w k c h j lt = let ne : (j == k) ≡ false = ground arith in rw ne (h j lt)

  pub WentOn-on_refresh :
      (w : World) (k : ℕ) (f r : Bool) → WentOn w k → WentOn (on_refresh k f r w) k
  WentOn-on_refresh w k f r h j lt = let ne : (j == k) ≡ false = ground arith in rw ne (h j lt)

  WentOn-on_sleep : (w : World) (k : ℕ) (s : Bool) → WentOn w k → WentOn (on_sleep k s w) k
  WentOn-on_sleep w k s h j lt = let ne : (j == k) ≡ false = ground arith in rw ne (h j lt)

  -- The loop from an attempt on, in a world that lets it get to the attempt k.
  gets_to :
      (n i k fuel : ℕ) (w : World) (out : Report)
      → k ≡ i + n
      → WentOn w k
      → cold_start_from fuel p w k ≡ some out
      → (m : ℕ) × (cold_start_from m p w i
          ≡ some (record out { lines = retry_lines p i n ++ out.lines }))
  unfolding cold_start_from retry_lines
  gets_to zero i k fuel w out e h d =
      (fuel, subst (λ j. cold_start_from fuel p w j ≡ some out) (omega arith) d)
  gets_to (suc n) i k fuel w out e h d =
      let (m, rest) = gets_to n (suc i) k fuel w out (omega arith) h d in
      let on = h i (omega arith) in (suc m, ground arith)

  -- The loop as a function comes to an ending after so many attempts, with these lines.
  abbrev pub Comes : World → Ending → ℕ → List Line → Type 0
  Comes w e n ls = (m : ℕ) × (cold_start_from m p w 0 ≡ some (report e n ls))

  ends_at :
      (w : World) (k : ℕ) (e : Ending) (n : ℕ) (ls : List Line)
      → WentOn w k
      → cold_start_from 1 p w k ≡ some (report e n ls)
      → Comes w e n (retry_lines p 0 k ++ ls)
  ends_at w k e n ls h d = gets_to k 0 k 1 w (report e n ls) (omega arith) h d

  self : (k : ℕ) → (k == k) ≡ true
  self k = ground arith

  pub interrupted_at :
      (w : World) (k : ℕ) → WentOn w k → Comes (on_test k true w) interrupted k (retry_lines p 0 k)
  unfolding cold_start_from
  interrupted_at w k h =
      subst (Comes (on_test k true w) interrupted k) (append-nil (retry_lines p 0 k)) (
        ends_at (on_test k true w) k interrupted k [] (WentOn-on_test w k true h)
          (ground (arith, self k)))

  pub refreshed_at :
      (w : World) (k : ℕ)
      → WentOn w k
      → w.cancelled k ≡ false
      → Comes (on_refresh k false false w) refreshed (k + 1) (retry_lines p 0 k)
  unfolding cold_start_from
  refreshed_at w k h c =
      subst (Comes (on_refresh k false false w) refreshed (k + 1)) (append-nil (retry_lines p 0 k))
        (ends_at (on_refresh k false false w) k refreshed (k + 1) []
          (WentOn-on_refresh w k false false h) (ground (arith, self k)))

  pub ready_at :
      (w : World) (k : ℕ)
      → WentOn w k
      → w.cancelled k ≡ false
      → Comes
          (on_refresh k true true w)
          served_by_cache
          (k + 1)
          (retry_lines p 0 k ++ cached_active ∷ [])
  unfolding cold_start_from
  ready_at w k h c =
      ends_at (on_refresh k true true w) k served_by_cache (k + 1) (cached_active ∷ [])
        (WentOn-on_refresh w k true true h) (ground (arith, self k))

  pub last_at :
      (w : World) (k : ℕ)
      → WentOn w k
      → w.cancelled k ≡ false
      → is_last p k ≡ true
      → Comes
          (on_refresh k true false w)
          gave_up
          (k + 1)
          (retry_lines p 0 k ++ budget_exhausted (k + 1) ∷ [])
  unfolding cold_start_from
  last_at w k h c l =
      ends_at (on_refresh k true false w) k gave_up (k + 1) (budget_exhausted (k + 1) ∷ [])
        (WentOn-on_refresh w k true false h) (ground (arith, self k))

  -- The attempt k has failed, and another one is to follow.
  pub record Failed (w : World) (k : ℕ) : Type 0 where
    pub tested : w.cancelled k ≡ false
    pub failed : w.refresh_fails k ≡ true
    pub unready : w.ready k ≡ false
    pub more : is_last p k ≡ false

  pub woken_at :
      (w : World) (k : ℕ)
      → WentOn w k
      → Failed w k
      → Comes (on_sleep k true w) interrupted (k + 1) (retry_lines p 0 (suc k))
  unfolding cold_start_from
  woken_at w k h f =
      subst (Comes (on_sleep k true w) interrupted (k + 1))
        (sym (retry_lines-suc k 0 k (omega arith)))
        (ends_at (on_sleep k true w) k interrupted (k + 1) (retrying (k + 1) (backoff p k) ∷ [])
          (WentOn-on_sleep w k true h)
          (ground (arith, self k, f.tested, f.failed, f.unready, f.more)))

  pub woke_at : (w : World) (k : ℕ) → WentOn w k → Failed w k → WentOn (on_sleep k false w) (suc k)
  woke_at w k h f =
      WentOn-suc (on_sleep k false w) k (WentOn-on_sleep w k false h)
        (ground (arith, self k, f.tested, f.failed, f.unready, f.more))

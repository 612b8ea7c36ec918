-- ===== src/Scheduler/ColdStart.antt =====
-- `runColdStart`: the loop ends within the budget, and each ending has one reason.
use native.Mathlib.Nat.{zero-add}
use native.Mathlib.Decide.{ℕ_discrete}
use bitblocker.Base.{
  ℕ, zero, suc, ◌+◌, ◌-◌, ◌≤◌, ◌<◌, inl, inr, ◌≡◌, refl, sym, ap, subst, ◌∙◌, not, ◌&&◌, Bool, true,
  false, some, List, [], ◌∷◌, ◌++◌, arith, Bool-cases, if◌then◌else◌,
}
use bitblocker.Base.Int.{ℤ, pos, pos_part, ◌≤ℤ◌}
use bitblocker.Scheduler.{
  RetryPolicy, World, Line, cached_active, budget_exhausted, retrying, Ending, interrupted,
  refreshed, served_by_cache, gave_up, Report, is_last, cold_start_from, with_defaults, backoff,
}

-- An attempt that goes on to the next one.
abbrev pub goes_on : RetryPolicy → World → ℕ → Bool
goes_on p w i =
    not (w.cancelled i)
    && w.refresh_fails i
    && not (w.ready i)
    && not (is_last p i)
    && not (w.sleep_cut i)

-- The delays that the log announces.
pub retry_delays : List Line → List ℤ
retry_delays [] = []
retry_delays (retrying k d ∷ ls) = d ∷ retry_delays ls
retry_delays (_ ∷ ls) = retry_delays ls

abbrev lines_at : RetryPolicy → World → ℕ → List Line
lines_at p w k =
    if w.cancelled k
    then []
    else if not (w.refresh_fails k)
    then []
    else if w.ready k
    then cached_active ∷ []
    else if is_last p k
    then budget_exhausted (k + 1) ∷ []
    else retrying (k + 1) (backoff p k) ∷ []

-- The delays announced at the attempts from i on, n of them.
pub backoffs : RetryPolicy → ℕ → ℕ → List ℤ
backoffs p i zero = []
backoffs p i (suc n) = backoff p i ∷ backoffs p (suc i) n

-- Why the attempt k is the last one.
abbrev pub ending_at : RetryPolicy → World → ℕ → Ending
ending_at p w k =
    if w.cancelled k
    then interrupted
    else if not (w.refresh_fails k)
    then refreshed
    else if w.ready k
    then served_by_cache
    else if is_last p k
    then gave_up
    else interrupted

abbrev pub refreshes_at : World → ℕ → ℕ
refreshes_at w k = if w.cancelled k then k else k + 1

-- The attempt k fails and is not the last, and the sleep behind it is cut short.
abbrev pub announced_at : RetryPolicy → World → ℕ → List ℤ
announced_at p w k =
    if w.cancelled k
    then []
    else if not (w.refresh_fails k)
    then []
    else if w.ready k
    then []
    else if is_last p k
    then []
    else backoff p k ∷ []

-- A report of a loop that starts at the attempt i and stops at the attempt k, n attempts later.
pub record Stops (p : RetryPolicy) (w : World) (i n k : ℕ) (r : Report) : Type 0 where
  pub far : k ≡ i + n
  pub went_on : (j : ℕ) → i ≤ j → j < k → goes_on p w j ≡ true
  pub stopped : goes_on p w k ≡ false
  pub ending : r.ending ≡ ending_at p w k
  pub refreshes : r.refreshes ≡ refreshes_at w k
  pub delays : retry_delays r.lines ≡ backoffs p i n ++ announced_at p w k

stop_here :
    (fuel : ℕ) (p : RetryPolicy) (w : World) (i : ℕ)
    → goes_on p w i ≡ false
    → (r : Report) × (cold_start_from (suc fuel) p w i ≡ some r) × Stops p w i 0 i r
unfolding cold_start_from retry_delays backoffs
stop_here fuel p w i h = (
  record { ending = ending_at p w i; refreshes = refreshes_at w i; lines = lines_at p w i },
  ground arith,
  record {
    far = omega arith;
    went_on = λ j le lt. absurd (omega arith);
    stopped = h;
    ending = refl;
    refreshes = refl;
    delays = ground arith;
  },
)

went_on_from :
    (p : RetryPolicy) (w : World) (i k j : ℕ)
    → goes_on p w i ≡ true
    → ((j : ℕ) → suc i ≤ j → j < k → goes_on p w j ≡ true)
    → i ≤ j
    → j < k
    → goes_on p w j ≡ true
went_on_from p w i k j h rest le lt = elim (ℕ_discrete i j) [
  | yes e ↦ subst (λ x. goes_on p w x ≡ true) e h
  | no ne ↦ rest j (omega arith) lt
]

step_on :
    (fuel : ℕ) (p : RetryPolicy) (w : World) (i n k : ℕ) (r : Report)
    → goes_on p w i ≡ true
    → cold_start_from fuel p w (suc i) ≡ some r
    → Stops p w (suc i) n k r
    → (r' : Report) × (cold_start_from (suc fuel) p w i ≡ some r') × Stops p w i (suc n) k r'
unfolding cold_start_from retry_delays backoffs
step_on fuel p w i n k r h e st = (
  record r { lines = retrying (i + 1) (backoff p i) ∷ r.lines },
  ground arith,
  record {
    far = omega (arith, st.far);
    went_on = λ j le lt. went_on_from p w i k j h st.went_on le lt;
    stopped = st.stopped;
    ending = st.ending;
    refreshes = st.refreshes;
    delays = ap (λ ds. backoff p i ∷ ds) st.delays;
  },
)

cold_start-Stops :
    (m fuel : ℕ) (p : RetryPolicy) (w : World) (i : ℕ)
    → p.max_attempts ≡ pos (i + suc m)
    → m < fuel
    → (r : Report) × (n : ℕ) × (k : ℕ) × (cold_start_from fuel p w i ≡ some r)
      × Stops p w i n k r
      × (k ≤ i + m)
cold_start-Stops m zero p w i e h = absurd (omega arith)
cold_start-Stops zero (suc fuel) p w i e h =
    let off : goes_on p w i ≡ false = ground arith in
    let (r, done, st) = stop_here fuel p w i off in (r, 0, i, done, st, omega arith)
cold_start-Stops (suc m) (suc fuel) p w i e h = elim (Bool-cases (goes_on p w i)) [
  | inl on ↦
      let (r, n, k, done, st, le) =
        cold_start-Stops m fuel p w (suc i) (ground arith) (omega arith) in
      let (r', done', st') = step_on fuel p w i n k r on done st in
      (r', suc n, k, done', st', omega arith)
  | inr off ↦ let (r, done, st) = stop_here fuel p w i off in (r, 0, i, done, st, omega arith)
]

positive_attempts : (x : ℤ) → pos 1 ≤ℤ x → x ≡ pos (suc (pos_part x - 1))
positive_attempts x h = ground arith

max_attempts-with_defaults : (p : RetryPolicy) → pos 1 ≤ℤ (with_defaults p).max_attempts
unfolding with_defaults
max_attempts-with_defaults p = ground arith

-- Whatever the policy and whatever the loop meets, with the defaults put in the cold start ends
-- within the budget of attempts. It stops at the first attempt at which it is cancelled, succeeds,
-- finds a cached blocklist, has used the budget or is woken; the ending names that reason, and the
-- announced delays are those of `backoff`, one for each failed attempt that was not the last.
pub cold_start_total :
    (p : RetryPolicy) (w : World) (fuel : ℕ)
    → pos_part (with_defaults p).max_attempts ≤ fuel
    → (r : Report) × (n : ℕ) × (k : ℕ) × (cold_start_from fuel (with_defaults p) w 0 ≡ some r)
      × Stops (with_defaults p) w 0 n k r
      × (k < pos_part (with_defaults p).max_attempts)
cold_start_total p w fuel h =
    let attempts = pos_part (with_defaults p).max_attempts - 1 in
    let many = max_attempts-with_defaults p in
    let (r, n, k, done, st, le) =
      cold_start-Stops attempts fuel (with_defaults p) w 0
        (positive_attempts _ many ∙ ap pos (sym (zero-add (suc attempts)))) (omega arith) in
    (r, n, k, done, st, omega arith)

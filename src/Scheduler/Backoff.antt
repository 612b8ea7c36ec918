-- ===== src/Scheduler/Backoff.antt =====
-- The delays of `backoff`, and the wrap-around of its shift.
use native.Mathlib.Nat.{one-le-pow, mod-eq_of_lt}
use bitblocker.Base.Powers.{two_pow_pos, two_pow_mono, pow_add}
use bitblocker.Base.{
  ℕ, ◌+◌, ◌-◌, ◌*◌, ◌%◌, ◌^◌, ◌≤◌, ◌<◌, min, inl, inr, ◌≡◌, sym, ap, ◌∙◌, ◌||◌, arith, false,
  lt→ltb, leb, Bool-cases, if◌then◌else◌,
}
use bitblocker.Base.Int.{ℤ, pos, ◌≤ℤ◌, ltb_ℤ, shl_i64}
use bitblocker.Scheduler.{RetryPolicy, not_positive, with_defaults, backoff}

-- The last two returns of `backoff`.
abbrev capped : ℤ → ℤ → ℤ
capped d m = if not_positive d || ltb_ℤ m d then m else d

capped_bounds : (d m : ℤ) → pos 1 ≤ℤ m → (pos 1 ≤ℤ capped d m) × (capped d m ≤ℤ m)
capped_bounds d m h = ground arith

max_delay-with_defaults : (p : RetryPolicy) → pos 1 ≤ℤ (with_defaults p).max_delay
unfolding with_defaults
max_delay-with_defaults p = ground arith

-- Whatever the policy, after the defaults are put in a delay is positive and at most the maximum,
-- also where the shift wraps.
pub backoff_bounds :
    (p : RetryPolicy) (attempt : ℕ)
    → let q = with_defaults p in (pos 1 ≤ℤ backoff q attempt) × (backoff q attempt ≤ℤ q.max_delay)
unfolding backoff
backoff_bounds p attempt =
    let q : RetryPolicy = with_defaults p in
    elim (Bool-cases (leb 62 attempt)) [
      | inl late ↦ rw late (max_delay-with_defaults p, omega arith)
      | inr early ↦
          rw early
            (capped_bounds (shl_i64 q.base_delay attempt) q.max_delay (max_delay-with_defaults p))
    ]

abbrev pub policy : ℤ → ℕ → ℕ → RetryPolicy
policy n base top = record { max_attempts = n; base_delay = pos base; max_delay = pos top }

shl_exact : (base k : ℕ) → base * 2 ^ k < 2 ^ 63 → shl_i64 (pos base) k ≡ pos (base * 2 ^ k)
shl_exact base k h = rw (mod-eq_of_lt base_small, mod-eq_of_lt product_small) (rw (lt→ltb _ _ h))
  where
    base_small : base < 2 ^ 64
    base_small = grind (arith, one-le-pow k 2 (omega arith))

    product_small : base * 2 ^ k < 2 ^ 64
    product_small = omega arith

capped-min : (d m : ℕ) → 0 < d → capped (pos d) (pos m) ≡ pos (min d m)
capped-min d m h = ground arith

-- Before attempt 62, for a positive base and as long as the product fits an int64, the delay is the
-- base doubled at each attempt and capped.
pub backoff_exact :
    (n : ℤ) (base top attempt : ℕ)
    → 0 < base
    → attempt < 62
    → base * 2 ^ attempt < 2 ^ 63
    → backoff (policy n base top) attempt ≡ pos (min (base * 2 ^ attempt) top)
unfolding backoff
backoff_exact n base top attempt hb ha hp =
    let early : leb 62 attempt ≡ false = ground arith in
    rw (early, shl_exact base attempt hp)
      (capped-min (base * 2 ^ attempt) top (grind (arith, one-le-pow attempt 2 (omega arith))))

whole : (k : ℕ) → k ≤ 64 → 2 ^ (64 - k) * 2 ^ k ≡ 2 ^ 64
whole k h = sym (pow_add 2 (64 - k) k) ∙ ap (λ (e : ℕ). 2 ^ e) {y = 64} (omega arith)

shl_wraps : (k : ℕ) → 2 ≤ k → k < 62 → shl_i64 (pos (2 ^ (64 - k) + 1)) k ≡ pos (2 ^ k)
shl_wraps k h2 h62 = rw (mod-eq_of_lt base_small, low) (rw (lt→ltb _ _ small))
  where
    base_small : 2 ^ (64 - k) + 1 < 2 ^ 64
    base_small = omega (arith, two_pow_mono (64 - k) 62 (omega arith))

    small : 2 ^ k < 2 ^ 63
    small = omega (arith, two_pow_mono k 62 (omega arith))

    low : (2 ^ (64 - k) + 1) * 2 ^ k % 2 ^ 64 ≡ 2 ^ k
    low = omega (arith, whole k (omega arith), small)

-- Where the product does not fit, the shift can wrap to a small positive number: for an attempt k
-- from 2 to 61 and a cap from 2^k to below 2^63, a base one above 2^(64 - k) has the delay 2^k at
-- attempt k, though the product is above the cap.
pub backoff_wraps :
    (n : ℤ) (k top : ℕ)
    → 2 ≤ k
    → k < 62
    → 2 ^ k ≤ top
    → top < 2 ^ 63
    → (backoff (policy n (2 ^ (64 - k) + 1) top) k ≡ pos (2 ^ k))
      × (top < (2 ^ (64 - k) + 1) * 2 ^ k)
unfolding backoff
backoff_wraps n k top h2 h62 hc h63 =
    let early : leb 62 k ≡ false = ground arith in
    (
      rw (early, shl_wraps k h2 h62)
          (capped-min (2 ^ k) top (two_pow_pos k) ∙ ap pos (omega arith)),
      omega (arith, whole k (omega arith)),
    )

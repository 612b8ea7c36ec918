-- ===== src/Server/Readiness/Counting/Exact.antt =====
-- internal/server/readiness.go: what the log lines tell of the requests that were let through, whatever
-- the order of the atomic operations.
use mathlib.Core.List.{append_assoc, append-nil, map-append}
use native.Mathlib.Nat.{add-zero}
use bitblocker.Base.{ℕ, suc, ◌+◌, ◌^◌, ◌<◌, ◌≡◌, refl, sym, List, [], ◌∷◌, ◌++◌, map, arith}
use bitblocker.Server.Readiness.{u64, sub_u64}
use bitblocker.Server.Readiness.Counting.{
  Phase, enforcing, snapshot, window, opening, closing, Told, at_heartbeat, at_recovery, Counters,
  Step, add_total, add_since, load_start, store_start, reset, load_end, recover, load_total, swap,
  Reachable, started, stepped,
}

-- What happened, without the counters' width: the requests let through, those whose count was reset at
-- the opening of a window, those since the last opening, and those of each window that was closed.
pub record Tally : Type 0 where
  pub let_through : ℕ
  pub forgotten : ℕ
  pub since_opening : ℕ
  pub windows : List ℕ

abbrev pub tally_step : (s t : Counters) → Step s t → Tally → Tally
tally_step s _ add_total k = record k {
  let_through = suc k.let_through;
  since_opening = suc k.since_opening;
}
tally_step s _ (add_since n b) k = k
tally_step s _ (load_start p) k = record k { since_opening = 0 }
tally_step s _ (store_start n p) k = k
tally_step s _ (reset p) k = record k { forgotten = k.forgotten + s.fail_open_since_heartbeat }
tally_step s _ (load_end p) k = record k { windows = k.windows ++ k.since_opening ∷ [] }
tally_step s _ (recover n p) k = k
tally_step s _ (load_total l) k = k
tally_step s _ (swap n l) k = k

unfoldable pub tally : (s : Counters) → Reachable s → Tally
tally _ started = record { let_through = 0; forgotten = 0; since_opening = 0; windows = [] }
tally _ (stepped s t r x) = tally_step s t x (tally s r)

-- The numbers told since the last line, summed, and the numbers told at recoveries.
abbrev pub since_of : Told → ℕ
since_of (at_heartbeat total since) = since
since_of (at_recovery allowed) = 0

abbrev pub allowed_of : Told → List ℕ
allowed_of (at_heartbeat total since) = []
allowed_of (at_recovery allowed) = allowed ∷ []

unfoldable pub sum_since : List Told → ℕ
sum_since [] = 0
sum_since (t ∷ ts) = since_of t + sum_since ts

unfoldable pub all_allowed : List Told → List ℕ
all_allowed [] = []
all_allowed (t ∷ ts) = allowed_of t ++ all_allowed ts

-- The number that `emitRecovered` is about to tell.
abbrev pub about_to_tell : Phase → ℕ → List ℕ
about_to_tell (closing n) m = sub_u64 n m ∷ []
about_to_tell _ m = []

sum_since-snoc : (ts : List Told) (t : Told) → sum_since (ts ++ t ∷ []) ≡ sum_since ts + since_of t
unfolding sum_since
sum_since-snoc [] t = omega arith
sum_since-snoc (x ∷ ts) t = rw (sum_since-snoc ts t) (omega arith)

all_allowed-snoc :
    (ts : List Told) (t : Told) → all_allowed (ts ++ t ∷ []) ≡ all_allowed ts ++ allowed_of t
unfolding all_allowed
all_allowed-snoc [] t = append-nil (allowed_of t)
all_allowed-snoc (x ∷ ts) t =
    rw (all_allowed-snoc ts t) (sym (append_assoc (allowed_of x) (all_allowed ts) (allowed_of t)))

-- While a window is open, the total is past the snapshot by the requests let through since.
abbrev Opened : Phase → (total m since : ℕ) → Type 0
Opened enforcing total m since = Unit
Opened snapshot total m since = sub_u64 total m ≡ u64 since
Opened window total m since = sub_u64 total m ≡ u64 since
Opened (opening n) total m since = (n < 2 ^ 64) × (sub_u64 total n ≡ u64 since)
Opened (closing n) total m since = Unit

record Agrees (k : Tally) (s : Counters) : Type 0 where
  total_small : s.fail_open_total < 2 ^ 64
  start_small : s.fail_open_at_window_start < 2 ^ 64
  kept :
      u64 (sum_since s.told + s.fail_open_since_heartbeat + s.between + k.forgotten)
      ≡ u64 k.let_through
  opened : Opened s.phase s.fail_open_total s.fail_open_at_window_start k.since_opening
  closed :
      all_allowed s.told ++ about_to_tell s.phase s.fail_open_at_window_start ≡ map u64 k.windows

Opened-add :
    (p : Phase) (total m since : ℕ)
    → total < 2 ^ 64
    → m < 2 ^ 64
    → Opened p total m since
    → Opened p (u64 (total + 1)) m (suc since)
Opened-add enforcing total m since t b o = tt
Opened-add snapshot total m since t b o = omega arith
Opened-add window total m since t b o = omega arith
Opened-add (opening n) total m since t b o = (o.0, omega (arith, o.0, o.1))
Opened-add (closing n) total m since t b o = tt

-- The load at the end of a window.
closes :
    (s : Counters) (k : Tally)
    → s.phase ≡ window
    → Agrees k s
    → all_allowed s.told ++ sub_u64 s.fail_open_total s.fail_open_at_window_start ∷ []
      ≡ map u64 (k.windows ++ k.since_opening ∷ [])
closes s k p v =
    let c = rw p at v.closed in
    let o = rw p at v.opened in
    rw (o, map-append u64 k.windows (k.since_opening ∷ []), sym c, append-nil (all_allowed s.told))

Agrees-step :
    (s t : Counters) (x : Step s t) (k : Tally) → Agrees k s → Agrees (tally_step s t x k) t
Agrees-step s _ add_total k v = record {
  total_small = omega arith;
  start_small = v.start_small;
  kept = omega (arith, v.kept);
  opened =
      Opened-add s.phase s.fail_open_total s.fail_open_at_window_start k.since_opening v.total_small
        v.start_small v.opened;
  closed = v.closed;
}
Agrees-step s _ (add_since n b) k v = ground arith
Agrees-step s _ (load_start p) k v = ground arith
Agrees-step s _ (store_start n p) k v = ground arith
Agrees-step s _ (reset p) k v = ground arith
Agrees-step s _ (load_end p) k v = record {
  total_small = v.total_small;
  start_small = v.start_small;
  kept = v.kept;
  opened = tt;
  closed = closes s k p v;
}
Agrees-step s _ (recover n p) k v = record {
  total_small = v.total_small;
  start_small = v.start_small;
  kept =
      rw (sum_since-snoc s.told (at_recovery (sub_u64 n s.fail_open_at_window_start)), add-zero)
        v.kept;
  opened = tt;
  closed =
      rw
        (
          all_allowed-snoc s.told (at_recovery (sub_u64 n s.fail_open_at_window_start)),
          append-nil (all_allowed s.told ++ sub_u64 n s.fail_open_at_window_start ∷ []),
        )
        (rw p at v.closed);
}
Agrees-step s _ (load_total l) k v = ground arith
Agrees-step s _ (swap n l) k v = record {
  total_small = v.total_small;
  start_small = v.start_small;
  kept =
      rw (sum_since-snoc s.told (at_heartbeat n s.fail_open_since_heartbeat))
        (omega (arith, v.kept));
  opened = v.opened;
  closed =
      rw
        (
          all_allowed-snoc s.told (at_heartbeat n s.fail_open_since_heartbeat),
          append-nil (all_allowed s.told),
        )
        v.closed;
}

Agrees-tally : (s : Counters) (r : Reachable s) → Agrees (tally s r) s
unfolding tally sum_since all_allowed
Agrees-tally _ started = record {
  total_small = omega arith;
  start_small = omega arith;
  kept = refl;
  opened = tt;
  closed = refl;
}
Agrees-tally _ (stepped s t r x) = Agrees-step s t x (tally s r) (Agrees-tally s r)

-- Whatever the order of the atomic operations: the numbers told by the heartbeats, the counter since the
-- last one, the additions to it that are still to come and the counts that the openings of windows reset
-- sum to the requests let through, modulo 2^64; and the recoveries tell, in order and modulo 2^64, the
-- requests that were added to the total between the loads at the two ends of each window.
pub told-tally :
    (s : Counters) (r : Reachable s)
    → let k = tally s r in
      (u64 (sum_since s.told + s.fail_open_since_heartbeat + s.between + k.forgotten)
        ≡ u64 k.let_through)
      × (all_allowed s.told ++ about_to_tell s.phase s.fail_open_at_window_start
          ≡ map u64 k.windows)
told-tally s r = let v = Agrees-tally s r in (v.kept, v.closed)

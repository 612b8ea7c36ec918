-- ===== src/Server/Readiness/Threads/Reports.antt =====
-- internal/server/readiness.go: what many goroutines in `observe` report.
use bitblocker.Base.{
  ℕ, ◌≡◌, ◌≢◌, inl, inr, refl, sym, ap, ◌∙◌, Bool, true, false, Option, none, some, ◌∷◌, ◌==◌,
  ==_iff, arith, Bool-cases,
}
use bitblocker.Server.Readiness.Threads.{
  Place, outside, computed, waiting, locked, emitted, leaving, Shared, move, Step, compute, same,
  differ, lock, handled, emit, store, unlock, start, Reachable, started, stepped, last_report,
  Alternates,
}

abbrev is_inside : Place → Bool
is_inside (locked u) = true
is_inside (emitted u) = true
is_inside leaving = true
is_inside _ = false

-- What holds between any two steps: only the holder is inside, and the log ends with the flag, or with
-- the value that the holder is about to store.
record IsConsistent (s : Shared) : Type 0 where
  inside : (i : ℕ) → is_inside (s.places i) ≡ true → s.holder ≡ some i
  alternates : Alternates s.log
  told : (i : ℕ) (u : Bool) → s.places i ≡ emitted u → last_report s.log ≡ u
  quiet : ((i : ℕ) (u : Bool) → s.places i ≢ emitted u) → last_report s.log ≡ s.flag

locked-ne-emitted : (u v : Bool) → locked u ≢ emitted v
locked-ne-emitted u v h = ground arith

leaving-ne-emitted : (v : Bool) → leaving ≢ emitted v
leaving-ne-emitted v h = ground arith

emitted-inj : (u v : Bool) → emitted u ≡ emitted v → u ≡ v
emitted-inj u v h = ground arith

true-ne-false : true ≢ false
true-ne-false h = ground arith

alone :
    (s : Shared) (i j : ℕ)
    → IsConsistent s
    → is_inside (s.places i) ≡ true
    → is_inside (s.places j) ≡ true
    → (j == i) ≡ true
alone s i j c hi hj = ground (arith, c.inside i hi, c.inside j hj)

module _ (s : Shared) (c : IsConsistent s) (i : ℕ) where
  -- A goroutine that stays outside the mutex.
  stays_out :
      (p : Place)
      → is_inside p ≡ false
      → (j : ℕ) → is_inside (move i p s.places j) ≡ true
      → s.holder ≡ some j
  stays_out p out j h = elim (Bool-cases (j == i)) [
    | inl y ↦ absurd (true-ne-false (sym (rw y at h) ∙ out))
    | inr n ↦ c.inside j (rw n at h)
  ]

  -- The holder, which stays inside.
  stays_in :
      (p : Place)
      → is_inside (s.places i) ≡ true
      → (j : ℕ) → is_inside (move i p s.places j) ≡ true
      → s.holder ≡ some j
  stays_in p inn j h = elim (Bool-cases (j == i)) [
    | inl y ↦ c.inside i inn ∙ ap some (sym ((==_iff j i).0 y))
    | inr n ↦ c.inside j (rw n at h)
  ]

  enters :
      (p : Place)
      → s.holder ≡ none
      → (j : ℕ) → is_inside (move i p s.places j) ≡ true
      → some i ≡ some j
  enters p free j h = elim (Bool-cases (j == i)) [
    | inl y ↦ ap some (sym ((==_iff j i).0 y))
    | inr n ↦ ground (arith, c.inside j (rw n at h))
  ]

  leaves :
      is_inside (s.places i) ≡ true
      → (j : ℕ) → is_inside (move i outside s.places j) ≡ true
      → none ≡ some j
  leaves inn j h = elim (Bool-cases (j == i)) [
    | inl y ↦ absurd (true-ne-false (sym (rw y at h)))
    | inr n ↦ absurd (true-ne-false (sym (alone s i j c inn (rw n at h)) ∙ n))
  ]

  -- A move that touches neither the flag nor the log.
  calm :
      (p : Place) (holder : Option ℕ)
      → ((u : Bool) → s.places i ≢ emitted u)
      → ((u : Bool) → p ≢ emitted u)
      → ((j : ℕ) → is_inside (move i p s.places j) ≡ true → holder ≡ some j)
      → IsConsistent (record s { holder = holder; places = move i p s.places })
  calm p holder old new inn = record {
    inside = inn;
    alternates = c.alternates;
    told = λ j u e. elim (Bool-cases (j == i)) [
      | inl y ↦ absurd (new u (rw y at e))
      | inr n ↦ c.told j u (rw n at e)
    ];
    quiet = λ q. c.quiet (λ j u e. elim (Bool-cases (j == i)) [
      | inl y ↦ old u (sym (ap s.places ((==_iff j i).0 y)) ∙ e)
      | inr n ↦ q j u (rw n e)
    ]);
  }

  nobody_else :
      (u : Bool)
      → is_inside (s.places i) ≡ true
      → (j : ℕ) → (j == i) ≡ false
      → s.places j ≢ emitted u
  nobody_else u inn j n e = true-ne-false (sym (alone s i j c inn (ap is_inside e)) ∙ n)

  emits :
      (u : Bool)
      → s.places i ≡ locked u
      → s.flag ≢ u
      → IsConsistent (record s { places = move i (emitted u) s.places; log = u ∷ s.log })
  emits u p f =
      let inn : is_inside (s.places i) ≡ true = ap is_inside p in
      let before : last_report s.log ≡ s.flag = c.quiet (λ j v e. elim (Bool-cases (j == i)) [
        | inl y ↦ locked-ne-emitted u v (sym p ∙ sym (ap s.places ((==_iff j i).0 y)) ∙ e)
        | inr n ↦ nobody_else v inn j n e
      ]) in
      record {
        inside = stays_in (emitted u) inn;
        alternates = (λ e. f (sym before ∙ sym e), c.alternates);
        told = λ j v e. elim (Bool-cases (j == i)) [
          | inl y ↦ emitted-inj u v (rw y at e)
          | inr n ↦ absurd (nobody_else v inn j n (rw n at e))
        ];
        quiet = λ q. absurd (q i u (rw ((==_iff i i).1 refl) refl));
      }

  stores :
      (u : Bool)
      → s.places i ≡ emitted u
      → IsConsistent (record s { flag = u; places = move i leaving s.places })
  stores u p =
      let inn : is_inside (s.places i) ≡ true = ap is_inside p in
      record {
        inside = stays_in leaving inn;
        alternates = c.alternates;
        told = λ j v e. elim (Bool-cases (j == i)) [
          | inl y ↦ absurd (leaving-ne-emitted v (rw y at e))
          | inr n ↦ absurd (nobody_else v inn j n (rw n at e))
        ];
        quiet = λ q. c.told i u p;
      }

Step-IsConsistent : (s t : Shared) → Step s t → IsConsistent s → IsConsistent t
Step-IsConsistent s _ (compute i u p) c =
    calm s c i (computed u) s.holder (λ v e. ground arith) (λ v e. ground arith)
      (stays_out s c i (computed u) refl)
Step-IsConsistent s _ (same i u p f) c =
    calm s c i outside s.holder (λ v e. ground arith) (λ v e. ground arith)
      (stays_out s c i outside refl)
Step-IsConsistent s _ (differ i u p f) c =
    calm s c i (waiting u) s.holder (λ v e. ground arith) (λ v e. ground arith)
      (stays_out s c i (waiting u) refl)
Step-IsConsistent s _ (lock i u p h) c =
    calm s c i (locked u) (some i) (λ v e. ground arith) (λ v e. ground arith)
      (enters s c i (locked u) h)
Step-IsConsistent s _ (handled i u p f) c =
    calm s c i leaving s.holder (λ v e. ground arith) (λ v e. ground arith)
      (stays_in s c i leaving (ap is_inside p))
Step-IsConsistent s _ (emit i u p f) c = emits s c i u p f
Step-IsConsistent s _ (store i u p) c = stores s c i u p
Step-IsConsistent s _ (unlock i p) c =
    calm s c i outside none (λ v e. ground arith) (λ v e. ground arith)
      (leaves s c i (ap is_inside p))

IsConsistent-start : IsConsistent start
IsConsistent-start = record {
  inside = λ i h. ground arith;
  alternates = tt;
  told = λ i u e. ground arith;
  quiet = λ q. refl;
}

Reachable-IsConsistent : (s : Shared) → Reachable s → IsConsistent s
Reachable-IsConsistent _ started = IsConsistent-start
Reachable-IsConsistent t (stepped s _ r x) = Step-IsConsistent s t x (Reachable-IsConsistent s r)

-- However many goroutines observe at once and however their steps interleave, the reports alternate
-- from the first one on, which reports the unusable state: no change is reported twice.
pub reports-Alternates : (s : Shared) → Reachable s → Alternates s.log
reports-Alternates s r = (Reachable-IsConsistent s r).alternates

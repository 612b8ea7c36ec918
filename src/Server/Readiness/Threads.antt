-- ===== src/Server/Readiness/Threads.antt =====
-- internal/server/readiness.go: `observe` in many goroutines at once. A step is one read or write of the
-- flag, one operation on the mutex, or one log line; `emit_unusable` and `emit_recovered` show here as
-- the predicate that they report.
pub mod Reports
use bitblocker.Base.{
  ℕ, ◌≡◌, ◌≢◌, inl, inr, refl, sym, ap, ◌∙◌, Bool, true, false, Option, none, some, List, [], ◌∷◌,
  ◌==◌, ==_iff, arith, Bool-cases, if◌then◌else◌,
}

-- Where a goroutine stands in `observe`, with the predicate that it computed.
pub data Place : Type 0 where
  outside : Place
  computed waiting locked emitted : Bool → Place
  leaving : Place

-- The flag `usable`, the holder of the mutex, the place of each goroutine, and the predicates reported
-- in the log, the last one first.
pub record Shared : Type 0 where
  pub flag : Bool
  pub holder : Option ℕ
  pub places : ℕ → Place
  pub log : List Bool

abbrev pub move : ℕ → Place → (ℕ → Place) → ℕ → Place
move i p ps = λ j. if j == i then p else ps j

pub data Step (s : Shared) : Shared → Type 0 where
  -- `u := usable(l)`
  compute :
      (i : ℕ) (u : Bool)
      → s.places i ≡ outside
      → Step s (record s { places = move i (computed u) s.places })
  -- `if t.usable.Load() == u { return u }`
  same :
      (i : ℕ) (u : Bool)
      → s.places i ≡ computed u
      → s.flag ≡ u
      → Step s (record s { places = move i outside s.places })
  differ :
      (i : ℕ) (u : Bool)
      → s.places i ≡ computed u
      → s.flag ≢ u
      → Step s (record s { places = move i (waiting u) s.places })
  -- `t.mu.Lock()`
  lock :
      (i : ℕ) (u : Bool)
      → s.places i ≡ waiting u
      → s.holder ≡ none
      → Step s (record s { holder = some i; places = move i (locked u) s.places })
  -- the second test of the flag, under the mutex
  handled :
      (i : ℕ) (u : Bool)
      → s.places i ≡ locked u
      → s.flag ≡ u
      → Step s (record s { places = move i leaving s.places })
  emit :
      (i : ℕ) (u : Bool)
      → s.places i ≡ locked u
      → s.flag ≢ u
      → Step s (record s { places = move i (emitted u) s.places; log = u ∷ s.log })
  -- `t.usable.Store(u)`
  store :
      (i : ℕ) (u : Bool)
      → s.places i ≡ emitted u
      → Step s (record s { flag = u; places = move i leaving s.places })
  -- `t.mu.Unlock()`
  unlock :
      (i : ℕ)
      → s.places i ≡ leaving
      → Step s (record s { holder = none; places = move i outside s.places })

-- A new tracker, before any goroutine observes.
abbrev pub start : Shared
start = record { flag = true; holder = none; places = λ i. outside; log = [] }

pub data Reachable : Shared → Type 0 where
  started : Reachable start
  stepped : (s t : Shared) → Reachable s → Step s t → Reachable t

-- The report before a list of reports: a tracker starts as usable.
abbrev pub last_report : List Bool → Bool
last_report [] = true
last_report (u ∷ us) = u

-- Every report differs from the one before it.
abbrev pub Alternates : List Bool → Type 0
Alternates [] = Unit
Alternates (u ∷ us) = (u ≢ last_report us) × Alternates us

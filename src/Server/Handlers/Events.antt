-- ===== src/Server/Handlers/Events.antt =====
-- The readiness signals among the events that the handlers log, and what `observe` and `heartbeat`
-- of readiness.go add to them.
use mathlib.Core.List.{append_assoc}
use bitblocker.Base.{
  ℕ, ◌+◌, ◌≡◌, refl, sym, Bool, true, false, Option, List, [], ◌∷◌, ◌++◌, map, arith, if◌then◌else◌,
}
use bitblocker.Server.Readiness.{
  Lookup, Readiness, unusable, recovered, still_unusable, bool_eq, usable, observe, heartbeat,
}
use bitblocker.Server.Handlers.{Event, signal}

-- The transition that an event reports.
abbrev pub edge : Event → List Bool
edge (signal (unusable a m e v)) = false ∷ []
edge (signal (recovered d p c)) = true ∷ []
edge _ = []

abbrev pub beat_of : Event → ℕ
beat_of (signal (still_unusable m v e d c k)) = 1
beat_of _ = 0

unfoldable pub edges : List Event → List Bool
edges [] = []
edges (e ∷ es) = edge e ++ edges es

unfoldable pub beats : List Event → ℕ
beats [] = 0
beats (e ∷ es) = beat_of e + beats es

-- The changes in a sequence of observations, from a first value.
unfoldable pub changes : Bool → List Bool → List Bool
changes b [] = []
changes b (u ∷ us) = let rest = changes u us in if bool_eq b u then rest else u ∷ rest

unfoldable pub last_or : Bool → List Bool → Bool
last_or b [] = b
last_or b (u ∷ us) = last_or u us

pub edges-none : edges [] ≡ []
unfolding edges
edges-none = refl

pub beats-none : beats [] ≡ 0
unfolding beats
beats-none = refl

pub changes-none : (b : Bool) → changes b [] ≡ []
unfolding changes
changes-none b = refl

pub edges-append : (xs ys : List Event) → edges (xs ++ ys) ≡ edges xs ++ edges ys
unfolding edges
edges-append [] ys = refl
edges-append (x ∷ xs) ys =
    rw (edges-append xs ys) (sym (append_assoc (edge x) (edges xs) (edges ys)))

pub beats-append : (xs ys : List Event) → beats (xs ++ ys) ≡ beats xs + beats ys
unfolding beats
beats-append [] ys = omega arith
beats-append (x ∷ xs) ys = omega (arith, beats-append xs ys)

pub changes-append :
    (b : Bool) (us vs : List Bool)
    → changes b (us ++ vs) ≡ changes b us ++ changes (last_or b us) vs
unfolding changes last_or
changes-append b [] vs = refl
changes-append b (u ∷ us) vs = ground (arith, changes-append u us vs)

pub last_or-append :
    (b : Bool) (us vs : List Bool) → last_or b (us ++ vs) ≡ last_or (last_or b us) vs
unfolding last_or
last_or-append b [] vs = refl
last_or-append b (u ∷ us) vs = last_or-append u us vs

-- The events that `observe` adds.
module _ (now : ℕ) (l : Option Lookup) (t : Readiness) where
  pub edges-observe : edges (map signal (observe now l t).1) ≡ changes t.is_usable (usable l ∷ [])
  unfolding observe edges changes
  edges-observe = ground arith

  pub beats-observe : beats (map signal (observe now l t).1) ≡ 0
  unfolding observe beats
  beats-observe = ground arith

  module _ (later : ℕ) where
    pub edges-heartbeat :
        edges (map signal (heartbeat now later l t).1) ≡ changes t.is_usable (usable l ∷ [])
    unfolding heartbeat edges changes
    edges-heartbeat = ground arith

    pub beats-heartbeat :
        beats (map signal (heartbeat now later l t).1) ≡ (if usable l then 0 else 1)
    unfolding heartbeat beats
    beats-heartbeat = ground arith

-- ===== src/Server/Readiness/Examples.antt =====
-- Two goroutines that see the list unusable at the same time.
use bitblocker.Base.{refl, true, false, none, some, [], ◌∷◌, ◌≢◌, arith}
use bitblocker.Server.Readiness.Threads.{
  outside, computed, waiting, locked, emitted, leaving, Shared, move, compute, differ, lock,
  handled, emit, store, unlock, start, Reachable, started, stepped, Alternates,
}
use bitblocker.Server.Readiness.Threads.Reports.{reports-Alternates}

changed : true ≢ false
changed h = ground arith

-- Both have computed the predicate and found the flag different.
abbrev s1 : Shared
s1 = record start { places = move 0 (computed false) start.places }

abbrev s2 : Shared
s2 = record s1 { places = move 1 (computed false) s1.places }

abbrev s3 : Shared
s3 = record s2 { places = move 0 (waiting false) s2.places }

abbrev s4 : Shared
s4 = record s3 { places = move 1 (waiting false) s3.places }

-- The first one reports.
abbrev s5 : Shared
s5 = record s4 { holder = some 0; places = move 0 (locked false) s4.places }

abbrev s6 : Shared
s6 = record s5 { places = move 0 (emitted false) s5.places; log = false ∷ [] }

abbrev s7 : Shared
s7 = record s6 { flag = false; places = move 0 leaving s6.places }

abbrev s8 : Shared
s8 = record s7 { holder = none; places = move 0 outside s7.places }

-- The second one finds the change handled.
abbrev s9 : Shared
s9 = record s8 { holder = some 1; places = move 1 (locked false) s8.places }

abbrev s10 : Shared
s10 = record s9 { places = move 1 leaving s9.places }

s5_reached : Reachable s5
s5_reached =
    stepped s4 s5
      (stepped s3 s4
        (stepped s2 s3
          (stepped s1 s2 (stepped start s1 started (compute 0 false refl)) (compute 1 false refl))
          (differ 0 false refl changed))
        (differ 1 false refl changed))
      (lock 0 false refl refl)

s10_reached : Reachable s10
s10_reached =
    stepped s9 s10
      (stepped s8 s9
        (stepped s7 s8
          (stepped s6 s7 (stepped s5 s6 s5_reached (emit 0 false refl changed))
            (store 0 false refl))
          (unlock 0 refl))
        (lock 1 false refl refl))
      (handled 1 false refl refl)

reports-Alternates_example : Alternates s10.log
reports-Alternates_example = reports-Alternates s10 s10_reached

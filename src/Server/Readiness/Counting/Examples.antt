-- ===== src/Server/Readiness/Counting/Examples.antt =====
-- A window with two requests let through, one of them told by a heartbeat that comes between its two
-- additions.
use bitblocker.Base.{◌+◌, ◌≡◌, refl, none, some, [], ◌∷◌, map}
use bitblocker.Server.Readiness.{u64}
use bitblocker.Server.Readiness.Counting.{
  Counters, enforcing, snapshot, window, opening, closing, at_heartbeat, at_recovery, start,
  add_total, add_since, load_start, store_start, reset, load_end, recover, load_total, swap,
  Reachable, started, stepped,
}
use bitblocker.Server.Readiness.Counting.Exact.{tally, told-tally, sum_since, all_allowed}

abbrev s1 : Counters
s1 = record start { phase = opening 0 }

abbrev s2 : Counters
s2 = record s1 { fail_open_at_window_start = 0; phase = snapshot }

abbrev s3 : Counters
s3 = record s2 { fail_open_since_heartbeat = 0; phase = window }

abbrev s4 : Counters
s4 = record s3 { fail_open_total = 1; between = 1 }

abbrev s5 : Counters
s5 = record s4 { loaded = some 1 }

abbrev s5_reached : Reachable s5
s5_reached =
    stepped s4 s5
      (stepped s3 s4
        (stepped s2 s3
          (stepped s1 s2 (stepped start s1 started (load_start refl)) (store_start 0 refl))
          (reset refl))
        (add_total))
      (load_total refl)

abbrev s6 : Counters
s6 = record s5 { fail_open_since_heartbeat = 1; between = 0 }

abbrev s7 : Counters
s7 = record s6 { fail_open_since_heartbeat = 0; loaded = none; told = at_heartbeat 1 1 ∷ [] }

abbrev s8 : Counters
s8 = record s7 { fail_open_total = 2; between = 1 }

abbrev s9 : Counters
s9 = record s8 { phase = closing 2 }

abbrev s10 : Counters
s10 = record s9 { phase = enforcing; told = at_heartbeat 1 1 ∷ at_recovery 2 ∷ [] }

abbrev s10_reached : Reachable s10
s10_reached =
    stepped s9 s10
      (stepped s8 s9
        (stepped s7 s8 (stepped s6 s7 (stepped s5 s6 (s5_reached) (add_since 0 refl)) (swap 1 refl))
          (add_total))
        (load_end refl))
      (recover 2 refl)

told-tally_example :
    (u64 (1 + 0 + 1 + 0) ≡ u64 (tally s10 s10_reached).let_through)
    × (2 ∷ [] ≡ map u64 (tally s10 s10_reached).windows)
unfolding sum_since all_allowed tally
told-tally_example = told-tally s10 s10_reached

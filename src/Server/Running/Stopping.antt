-- ===== src/Server/Running/Stopping.antt =====
-- internal/server/server.go: `Run` comes to an end once its context is cancelled.
use bitblocker.Base.{
  ℕ, ◌+◌, ◌≤◌, ◌≡◌, refl, Bool, true, false, Option, List, [], ◌∷◌, arith, inl, inr, ◌⊎◌,
}
use bitblocker.Netip.{Addr}
use bitblocker.Server.Readiness.{Lookup}
use bitblocker.Server.ClientIp.{Text}
use bitblocker.Server.Handlers.{Server}
use bitblocker.Server.Handlers.Runs.{Call}
use bitblocker.Server.Running.{
  ServeError, RunError, Listener, listening, ended, Place, selecting, shutting_down, awaiting,
  leaving, joining, returned, Running, begin_run, Step, serve, beats, beat_stops, listener_fails,
  listener_closes, see_cancel, see_error, shut_down, shutdown_fails, receive, cancel_beat, join,
  Reach, begun, cancels, steps, call_of,
}
use bitblocker.Server.Running.Results.{IsSound, Reach-IsSound}

-- The moves that are left, handlers and heartbeats aside.
abbrev pub place_rank : Place → ℕ
place_rank selecting = 5
place_rank shutting_down = 4
place_rank awaiting = 3
place_rank (leaving r) = 2
place_rank (joining r) = 1
place_rank (returned r) = 0

abbrev pub listener_rank : Listener → ℕ
listener_rank listening = 1
listener_rank (ended e) = 0

abbrev pub beat_rank : Bool → ℕ
beat_rank true = 1
beat_rank false = 0

abbrev pub rank : Running → ℕ
rank s = place_rank s.place + listener_rank s.listener + beat_rank s.beating

-- A step that runs no handler and no heartbeat is a move.
abbrev pub moves_in : List Call → ℕ
moves_in [] = 1
moves_in (c ∷ cs) = 0

abbrev pub HasReturned : Running → Type 0
HasReturned s = (r : Option RunError) × (s.place ≡ returned r)

-- What ends the server: the cancellation of its context, or the end of its listener.
abbrev pub IsEnding : Bool → Running → Type 0
IsEnding c s = (c ≡ true) ⊎ ((e : ServeError) × (s.listener ≡ ended e))

module _ (parse_addr : Text → Option Addr) (redacted : Addr → Text) where
  pub Step-rank :
      (c : Bool) (s t : Running) (x : Step parse_addr redacted c s t)
      → moves_in (call_of parse_addr redacted c s t x) + rank t ≤ rank s
  Step-rank c s _ (serve x n) = ground arith
  Step-rank c s _ (beats now later l b) = ground arith
  Step-rank c s _ (beat_stops b d) = ground arith
  Step-rank c s _ (listener_fails e l d) = ground arith
  Step-rank c s _ (listener_closes l d) = ground arith
  Step-rank c s _ (see_cancel p k) = ground arith
  Step-rank c s _ (see_error e p l) = ground arith
  Step-rank c s _ (shut_down p) = ground arith
  Step-rank c s _ (shutdown_fails e p) = ground arith
  Step-rank c s _ (receive e p l) = ground arith
  Step-rank c s _ (cancel_beat r p) = ground arith
  Step-rank c s _ (join r p b) = ground arith

  -- A move is possible.
  abbrev pub CanMove : Bool → Running → Type 0
  CanMove c s =
      (t : Running) × (x : Step parse_addr redacted c s t) × (moves_in
          (call_of parse_addr redacted c s t x)
        ≡ 1)

  pub progress :
      (c : Bool) (s : Running) (p : Place) (l : Listener) (b : Bool)
      → s.place ≡ p
      → s.listener ≡ l
      → s.beating ≡ b
      → IsEnding c s
      → IsSound c s
      → HasReturned s ⊎ CanMove c s
  progress c s selecting l b hp hl hb (inl k) v = inr (_, see_cancel hp k, refl)
  progress c s selecting l b hp hl hb (inr (e, k)) v = inr (_, see_error e hp k, refl)
  progress c s shutting_down l b hp hl hb k v = inr (_, shut_down hp, refl)
  progress c s awaiting listening b hp hl hb k v =
      inr (_, listener_closes hl (ground (arith, v.shutting)), refl)
  progress c s awaiting (ended e) b hp hl hb k v = inr (_, receive e hp hl, refl)
  progress c s (leaving r) l b hp hl hb k v = inr (_, cancel_beat r hp, refl)
  progress c s (joining r) l true hp hl hb k v =
      inr (_, beat_stops hb (ground (arith, v.beat_told)), refl)
  progress c s (joining r) l false hp hl hb k v = inr (_, join r hp hb, refl)
  progress c s (returned r) l b hp hl hb k v = inl (r, hp)

  module _ (s0 : Server) (now : ℕ) (l0 : Option Lookup) where
    -- The moves of a run of `Run`.
    pub moves : (c : Bool) (t : Running) → Reach parse_addr redacted s0 now l0 c t → ℕ
    moves _ _ begun = 0
    moves _ _ (cancels t r) = moves false t r
    moves _ _ (steps c t u r x) = moves_in (call_of parse_addr redacted c t u x) + moves c t r

    Reach-rank :
        (c : Bool) (t : Running) (r : Reach parse_addr redacted s0 now l0 c t)
        → moves c t r + rank t ≤ 7
    unfolding moves begin_run
    Reach-rank _ _ begun = ground arith
    Reach-rank _ _ (cancels t r) = Reach-rank false t r
    Reach-rank _ _ (steps c t u r x) =
        let h = Reach-rank c t r in let k = Step-rank c t u x in omega arith

    -- A run of the server makes at most seven steps that are no handler and no heartbeat, and once its
    -- context is cancelled or its listener has ended, such a step is possible until `Run` has returned.
    -- So `Run` returns after a cancellation and after a failure of the listener, however many handlers
    -- and heartbeats run meanwhile, as soon as these steps get their turn.
    pub run_stops :
        (c : Bool) (t : Running) (r : Reach parse_addr redacted s0 now l0 c t)
        → (moves c t r ≤ 7) × (IsEnding c t → HasReturned t ⊎ CanMove c t)
    run_stops c t r =
        let h = Reach-rank c t r in
        (
          omega arith,
          λ e.
              progress c t t.place t.listener t.beating refl refl refl e
                (Reach-IsSound parse_addr redacted s0 now l0 c t r),
        )

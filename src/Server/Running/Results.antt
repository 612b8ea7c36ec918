-- ===== src/Server/Running/Results.antt =====
-- internal/server/server.go: what `Run` returns and what it logs until then.
use bitblocker.Base.{ℕ, ◌≡◌, ◌≢◌, Bool, true, false, Option, none, some, arith}
use bitblocker.Netip.{Addr}
use bitblocker.Server.Readiness.{Lookup}
use bitblocker.Server.ClientIp.{Text}
use bitblocker.Server.Handlers.{Server}
use bitblocker.Server.Running.{
  ServeError, server_closed, broken, RunError, not_served, sent, Listener, listening, ended, Place,
  selecting, shutting_down, awaiting, leaving, joining, returned, Running, begin_run, Step, serve,
  beats, beat_stops, listener_fails, listener_closes, see_cancel, see_error, shut_down,
  shutdown_fails, receive, cancel_beat, join, Reach, begun, cancels, steps,
}

-- The results that a place carries.
abbrev pub result_at : Place → Option (Option RunError)
result_at (leaving r) = some r
result_at (joining r) = some r
result_at (returned r) = some r
result_at _ = none

abbrev pub in_shutdown : Place → Bool
in_shutdown shutting_down = true
in_shutdown awaiting = true
in_shutdown _ = false

abbrev pub is_joining : Place → Bool
is_joining (joining r) = true
is_joining (returned r) = true
is_joining _ = false

abbrev is_returned : Place → Bool
is_returned (returned r) = true
is_returned _ = false

-- A result of `Run` and the listener behind it: nil comes of `ErrServerClosed` only, and another error of
-- `ListenAndServe` is passed on.
abbrev pub Agrees : Option (Option RunError) → Listener → Type 0
Agrees (some none) l = l ≡ ended server_closed
Agrees (some (some (not_served e))) l = (l ≡ ended e) × (e ≢ server_closed)
Agrees _ l = Unit

-- What holds between any two steps.
pub record IsSound (cancelled : Bool) (s : Running) : Type 0 where
  pub shutdown_cancelled : s.shutdown_called ≡ true → cancelled ≡ true
  pub closed_by_shutdown : s.listener ≡ ended server_closed → s.shutdown_called ≡ true
  pub shutting : in_shutdown s.place ≡ true → s.shutdown_called ≡ true
  pub agrees : Agrees (result_at s.place) s.listener
  pub undisturbed : s.listener ≡ listening → s.shutdown_called ≡ false → s.place ≡ selecting
  pub beat_told : is_joining s.place ≡ true → s.beat_cancelled ≡ true
  pub beat_over : is_returned s.place ≡ true → s.beating ≡ false

module _ (parse_addr : Text → Option Addr) (redacted : Addr → Text) where
  Step-IsSound :
      (c : Bool) (s t : Running) → Step parse_addr redacted c s t → IsSound c s → IsSound c t
  unfolding sent
  Step-IsSound c s _ (serve x n) v = ground arith
  Step-IsSound c s _ (beats now later l b) v = ground arith
  Step-IsSound c s _ (beat_stops b d) v = ground arith
  Step-IsSound c s _ (listener_fails e l d) v = ground arith
  Step-IsSound c s _ (listener_closes l d) v = ground arith
  Step-IsSound c s _ (see_cancel p k) v = ground arith
  Step-IsSound c s _ (see_error server_closed p l) v = ground arith
  Step-IsSound c s _ (see_error (broken e) p l) v = ground arith
  Step-IsSound c s _ (shut_down p) v = ground arith
  Step-IsSound c s _ (shutdown_fails e p) v = ground arith
  Step-IsSound c s _ (receive server_closed p l) v = ground arith
  Step-IsSound c s _ (receive (broken e) p l) v = ground arith
  Step-IsSound c s _ (cancel_beat r p) v = ground arith
  Step-IsSound c s _ (join r p b) v = ground arith

  module _ (s0 : Server) (now : ℕ) (l0 : Option Lookup) where
    pub Reach-IsSound :
        (c : Bool) (t : Running) → Reach parse_addr redacted s0 now l0 c t → IsSound c t
    unfolding begin_run
    Reach-IsSound _ _ begun = ground arith
    Reach-IsSound _ _ (cancels t r) = let v = Reach-IsSound false t r in ground arith
    Reach-IsSound _ _ (steps c t u r x) = Step-IsSound c t u x (Reach-IsSound c t r)

    -- When `Run` has returned, its heartbeat has ended. It returns nil only after its context was
    -- cancelled and the listener was closed by the shutdown, and an error of the listener only if the
    -- listener broke with that error, which is never `ErrServerClosed`.
    pub run_result :
        (c : Bool) (t : Running) (r : Option RunError)
        → Reach parse_addr redacted s0 now l0 c t
        → t.place ≡ returned r
        → (t.beating ≡ false)
          × (r ≡ none → (c ≡ true) × (t.listener ≡ ended server_closed))
          × ((e : ServeError)
              → r ≡ some (not_served e)
              → (t.listener ≡ ended e) × (e ≢ server_closed))
    run_result c t r x p =
        let v = Reach-IsSound c t x in
        (
          ground (arith, v.beat_over),
          λ e. ground (arith, v.agrees),
          λ e q. ground (arith, v.agrees),
        )

-- ===== src/Server/Running.antt =====
-- internal/server/server.go: `Run`, with its three goroutines. A step is one event of one of them; the
-- context that `Run` gets is cancelled or not at each step. A handler may run at any time, and it is
-- one step.
pub mod Results
pub mod Logs
pub mod Stopping
mod Examples
use bitblocker.Base.{
  ℕ, String, ◌≡◌, Bool, true, false, not, ◌&&◌, ◌||◌, Option, none, some, List, [], ◌∷◌, ◌++◌, map,
}
use bitblocker.Netip.{Addr}
use bitblocker.Server.Readiness.{Lookup, observe}
use bitblocker.Server.ClientIp.{Text}
use bitblocker.Server.Handlers.{Server, Event, signal}
use bitblocker.Server.Handlers.Runs.{Call, tick, step}

-- What `ListenAndServe` returns, which is never nil.
pub data ServeError : Type 0 where
  server_closed : ServeError
  broken : String → ServeError

-- An error of `Run`; nil is `none`.
pub data RunError : Type 0 where
  not_served : ServeError → RunError
  not_shut_down : String → RunError

-- What the listener's goroutine puts into `errCh`.
unfoldable pub sent : ServeError → Option RunError
sent server_closed = none
sent (broken e) = some (not_served (broken e))

-- The listener's goroutine: it serves, or it has put the result into `errCh`.
pub data Listener : Type 0 where
  listening : Listener
  ended : ServeError → Listener

-- Where `Run` stands: in the select, in `Shutdown`, at the channel after it, at the deferred
-- cancellation of the heartbeat, at the wait for it, and behind it.
pub data Place : Type 0 where
  selecting shutting_down awaiting : Place
  leaving joining returned : Option RunError → Place

pub record Running : Type 0 where
  pub place : Place
  pub listener : Listener
  pub shutdown_called : Bool
  pub beating : Bool
  pub beat_cancelled : Bool
  pub server : Server
  pub log : List Event

-- `Run` up to the select, where the first observation is made before anything is served.
unfoldable pub begin_run : Server → ℕ → Option Lookup → Running
begin_run s now l =
    let (t, signals) = observe now l s.readiness in
    record {
      place = selecting;
      listener = listening;
      shutdown_called = false;
      beating = true;
      beat_cancelled = false;
      server = record s { readiness = t };
      log = map signal signals;
    }

abbrev pub is_tick : Call → Bool
is_tick (tick now later l) = true
is_tick _ = false

module _ (parse_addr : Text → Option Addr) (redacted : Addr → Text) where
  -- A handler or a heartbeat.
  abbrev pub after_call : Running → Call → Running
  after_call s c =
      let (server, events) = step parse_addr redacted s.server c in
      record s { server = server; log = s.log ++ events }

  pub data Step (cancelled : Bool) (s : Running) : Running → Type 0 where
    serve : (c : Call) → is_tick c ≡ false → Step cancelled s (after_call s c)
    -- `case <-tick:` of `heartbeatLoop`
    beats :
        (now later : ℕ) (l : Option Lookup)
        → s.beating ≡ true
        → Step cancelled s (after_call s (tick now later l))
    -- `case <-ctx.Done():` of `heartbeatLoop`, whose context is a child of the one of `Run`
    beat_stops :
        s.beating ≡ true
        → (s.beat_cancelled || cancelled) ≡ true
        → Step cancelled s (record s { beating = false })
    -- `ListenAndServe` returns: `ErrServerClosed` once `Shutdown` is called, and only then
    listener_fails :
        (e : String)
        → s.listener ≡ listening
        → s.shutdown_called ≡ false
        → Step cancelled s (record s { listener = ended (broken e) })
    listener_closes :
        s.listener ≡ listening
        → s.shutdown_called ≡ true
        → Step cancelled s (record s { listener = ended server_closed })
    -- the two cases of the select
    see_cancel :
        s.place ≡ selecting
        → cancelled ≡ true
        → Step cancelled s (record s { place = shutting_down; shutdown_called = true })
    see_error :
        (e : ServeError)
        → s.place ≡ selecting
        → s.listener ≡ ended e
        → Step cancelled s (record s { place = leaving (sent e) })
    -- `Shutdown` returns, at the latest after its ten seconds
    shut_down : s.place ≡ shutting_down → Step cancelled s (record s { place = awaiting })
    shutdown_fails :
        (e : String)
        → s.place ≡ shutting_down
        → Step cancelled s (record s { place = leaving (some (not_shut_down e)) })
    -- `return <-errCh`
    receive :
        (e : ServeError)
        → s.place ≡ awaiting
        → s.listener ≡ ended e
        → Step cancelled s (record s { place = leaving (sent e) })
    -- the deferred `hbCancel(); ticker.Stop(); hbWG.Wait()`
    cancel_beat :
        (r : Option RunError)
        → s.place ≡ leaving r
        → Step cancelled s (record s { place = joining r; beat_cancelled = true })
    join :
        (r : Option RunError)
        → s.place ≡ joining r
        → s.beating ≡ false
        → Step cancelled s (record s { place = returned r })

  -- The states that `Run` gets to, with the state of its context, which stays cancelled once it is.
  pub data Reach (s : Server) (now : ℕ) (l : Option Lookup) : Bool → Running → Type 0 where
    begun : Reach s now l false (begin_run s now l)
    cancels : (t : Running) → Reach s now l false t → Reach s now l true t
    steps : (c : Bool) (t u : Running) → Reach s now l c t → Step c t u → Reach s now l c u

  -- The handlers and heartbeats that a step runs, and those of a run of `Run`.
  abbrev pub call_of : (c : Bool) (t u : Running) → Step c t u → List Call
  call_of c t _ (serve x n) = x ∷ []
  call_of c t _ (beats now later l b) = tick now later l ∷ []
  call_of c t _ (beat_stops b d) = []
  call_of c t _ (listener_fails e l d) = []
  call_of c t _ (listener_closes l d) = []
  call_of c t _ (see_cancel p k) = []
  call_of c t _ (see_error e p l) = []
  call_of c t _ (shut_down p) = []
  call_of c t _ (shutdown_fails e p) = []
  call_of c t _ (receive e p l) = []
  call_of c t _ (cancel_beat r p) = []
  call_of c t _ (join r p b) = []

  unfoldable pub calls_of :
      (s : Server) (now : ℕ) (l : Option Lookup) (c : Bool) (t : Running)
      → Reach s now l c t
      → List Call
  calls_of s now l _ _ begun = []
  calls_of s now l _ _ (cancels t r) = calls_of s now l false t r
  calls_of s now l _ _ (steps c t u r x) = calls_of s now l c t r ++ call_of c t u x

-- ===== src/Server/Running/Logs.antt =====
-- internal/server/server.go: the transition lines that `Run` logs, with the first observation.
use mathlib.Core.List.{append_assoc, append-nil}
use bitblocker.Base.{ap, ℕ, ◌≡◌, refl, sym, subst, ◌∙◌, Bool, false, Option, List, [], ◌∷◌, ◌++◌}
use bitblocker.Netip.{Addr}
use bitblocker.Server.Readiness.{Lookup, usable}
use bitblocker.Server.Readiness.Observe.{is_usable-observe}
use bitblocker.Server.ClientIp.{Text}
use bitblocker.Server.Handlers.{Server}
use bitblocker.Server.Handlers.Events.{
  edges, changes, last_or, edges-append, changes-append, last_or-append, edges-observe,
}
use bitblocker.Server.Handlers.Runs.{Call, tick, step, observed, is_usable-step, edges-step}
use bitblocker.Server.Handlers.Totals.{observed_all}
use bitblocker.Server.Running.{
  Running, begin_run, after_call, Step, serve, beats, beat_stops, listener_fails, listener_closes,
  see_cancel, see_error, shut_down, shutdown_fails, receive, cancel_beat, join, Reach, begun,
  cancels, steps, call_of, calls_of,
}

observed_all-append :
    (cs ds : List Call) → observed_all (cs ++ ds) ≡ observed_all cs ++ observed_all ds
unfolding observed_all
observed_all-append [] ds = refl
observed_all-append (c ∷ cs) ds =
    rw (observed_all-append cs ds)
      (sym (append_assoc (observed c) (observed_all cs) (observed_all ds)))

module _ (parse_addr : Text → Option Addr) (redacted : Addr → Text) (s : Server) (now : ℕ)
    (l : Option Lookup) where
  -- The log and the flag after a sequence of observations.
  record IsTold (us : List Bool) (t : Running) : Type 0 where
    told : edges t.log ≡ changes s.readiness.is_usable us
    flagged : t.server.readiness.is_usable ≡ last_or s.readiness.is_usable us

  IsTold-call :
      (us : List Bool) (t : Running) (c : Call)
      → IsTold us t
      → IsTold (us ++ observed c) (after_call parse_addr redacted t c)
  IsTold-call us t c v = record {
    told =
        edges-append t.log (step parse_addr redacted t.server c).1
        ∙ rw (v.told, edges-step parse_addr redacted t.server c, v.flagged)
            (sym (changes-append s.readiness.is_usable us (observed c)));
    flagged =
        is_usable-step parse_addr redacted t.server c
        ∙ rw v.flagged (sym (last_or-append s.readiness.is_usable us (observed c)));
  }

  -- A step that runs no call and leaves the server and the log.
  quietly :
      (us : List Bool) (t u : Running)
      → u.log ≡ t.log
      → u.server ≡ t.server
      → IsTold us t
      → IsTold (us ++ []) u
  quietly us t u e f v =
      subst (λ vs. IsTold vs u) (sym (append-nil us))
        (record {
          told = ap edges e ∙ v.told;
          flagged = ap (λ x. x.readiness.is_usable) f ∙ v.flagged;
        })

  spoken :
      (us : List Bool) (t : Running) (x : Call)
      → IsTold us t
      → IsTold (us ++ observed_all (x ∷ [])) (after_call parse_addr redacted t x)
  unfolding observed_all
  spoken us t x v =
      subst (λ vs. IsTold (us ++ vs) (after_call parse_addr redacted t x))
        (sym (append-nil (observed x))) (IsTold-call us t x v)

  Step-IsTold :
      (us : List Bool) (c : Bool) (t u : Running) (x : Step parse_addr redacted c t u)
      → IsTold us t
      → IsTold (us ++ observed_all (call_of parse_addr redacted c t u x)) u
  unfolding observed_all
  Step-IsTold us c t _ (serve x n) v = spoken us t x v
  Step-IsTold us c t _ (beats now' later l' b) v = spoken us t (tick now' later l') v
  Step-IsTold us c t _ (beat_stops b d) v = quietly us t _ refl refl v
  Step-IsTold us c t _ (listener_fails e n d) v = quietly us t _ refl refl v
  Step-IsTold us c t _ (listener_closes n d) v = quietly us t _ refl refl v
  Step-IsTold us c t _ (see_cancel p k) v = quietly us t _ refl refl v
  Step-IsTold us c t _ (see_error e p n) v = quietly us t _ refl refl v
  Step-IsTold us c t _ (shut_down p) v = quietly us t _ refl refl v
  Step-IsTold us c t _ (shutdown_fails e p) v = quietly us t _ refl refl v
  Step-IsTold us c t _ (receive e p n) v = quietly us t _ refl refl v
  Step-IsTold us c t _ (cancel_beat q p) v = quietly us t _ refl refl v
  Step-IsTold us c t _ (join q p b) v = quietly us t _ refl refl v

  Reach-IsTold :
      (c : Bool) (t : Running) (r : Reach parse_addr redacted s now l c t)
      → IsTold (usable l ∷ observed_all (calls_of parse_addr redacted s now l c t r)) t
  unfolding begin_run calls_of observed_all last_or
  Reach-IsTold _ _ begun = record {
    told = edges-observe now l s.readiness;
    flagged = is_usable-observe now l s.readiness;
  }
  Reach-IsTold _ _ (cancels t r) = Reach-IsTold false t r
  Reach-IsTold _ _ (steps c t u r x) =
      let before = calls_of parse_addr redacted s now l c t r in
      let made = call_of parse_addr redacted c t u x in
      subst (λ vs. IsTold (usable l ∷ vs) u) (sym (observed_all-append before made))
        (Step-IsTold (usable l ∷ observed_all before) c t u x (Reach-IsTold c t r))

  -- In every state of a run of the server the transition lines in the log are the changes of the
  -- readiness predicate over its observations: the one that is made before anything is served, and
  -- those of the handlers and the heartbeats that have run, in their order.
  pub log_tells :
      (c : Bool) (t : Running) (r : Reach parse_addr redacted s now l c t)
      → edges t.log
        ≡ changes s.readiness.is_usable
            (usable l ∷ observed_all (calls_of parse_addr redacted s now l c t r))
  log_tells c t r = (Reach-IsTold c t r).told

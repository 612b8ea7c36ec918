-- ===== src/Server/Handlers/Decisions.antt =====
-- What `/check` and `/healthz` answer, on every branch of the handlers in server.go.
use bitblocker.Base.{
  ℕ, String, ◌≡◌, ◌≢◌, ◌↔◌, ◌⊎◌, inl, inr, refl, sym, ap, ◌∙◌, true, false, not, Option, none, some,
  [], ◌∷◌, ◌++◌, map, null, arith, Bool-cases, Option-cases,
}
use bitblocker.Base.Int.{ℤ, pos, ◌≤ℤ◌}
use bitblocker.Base.Result.{ok}
use bitblocker.Netip.{Addr}
use bitblocker.Server.Readiness.{
  Lookup, serving, serving_enforcing, serving_allow_all, serving_deny_all, usable, fail_open,
  observe, new_readiness,
}
use bitblocker.Server.Readiness.Observe.{fail_open-observe}
use bitblocker.Server.ClientIp.{Text, extract_client_ip}
use bitblocker.Server.Handlers.{
  Server, Options, is_startup_mode, new_server, Request, Response, plain, method_not_allowed,
  is_get, Outcome, handle_check, handle_healthz, signal, unparseable_ip, Body, health,
}

-- What `New` ensures of a server.
pub record IsServer (s : Server) : Type 0 where
  pub at_least : pos 400 ≤ℤ s.block_status
  pub at_most : s.block_status ≤ℤ pos 599
  pub known_mode : is_startup_mode s.readiness.mode ≡ true

new_server-IsServer : (o : Options) (s : Server) → new_server o ≡ ok s → IsServer s
unfolding new_server new_readiness
new_server-IsServer o s h = ground arith

block_status-ne-200 : (s : Server) → IsServer s → pos 200 ≢ s.block_status
block_status-ne-200 s v e = ground (arith, v.at_least)

-- The `serving` field of a probe.
abbrev pub health_serving : Body → Option String
health_serving (health h) = some h.serving
health_serving _ = none

module _ (parse_addr : Text → Option Addr) (redacted : Addr → Text) where
  -- The requests that `/check` lets through.
  pub data LetsThrough (s : Server) (l : Option Lookup) (r : Request) : Type 0 where
    not_ready : usable l ≡ false → fail_open s.readiness ≡ true → LetsThrough s l r
    not_listed :
        (k : Lookup) (a : Addr)
        → l ≡ some k
        → usable l ≡ true
        → extract_client_ip parse_addr r.headers ≡ some a
        → k.contains a ≡ false
        → LetsThrough s l r

  status_of : Outcome → ℤ
  status_of (s, r, e) = r.status

  check-allows :
      (s : Server) (now : ℕ) (l : Option Lookup) (r : Request)
      → is_get r ≡ true
      → LetsThrough s l r
      → (handle_check parse_addr redacted s now l r).1 ≡ plain (pos 200)
  unfolding handle_check
  check-allows s now l r g (not_ready u f) = ground (arith, fail_open-observe now l s.readiness)
  check-allows s now l r g (not_listed k a e u x c) = ground arith

  usable-cases :
      (l : Option Lookup) → (usable l ≡ false) ⊎ ((k : Lookup) × (l ≡ some k) × (usable l ≡ true))
  unfolding usable
  usable-cases none = inl refl
  usable-cases (some k) = elim (Bool-cases (usable (some k))) [
    | inl u ↦ inr (k, refl, u)
    | inr u ↦ inl u
  ]

  check-unready :
      (s : Server) (now : ℕ) (l : Option Lookup) (r : Request)
      → is_get r ≡ true
      → usable l ≡ false
      → fail_open s.readiness ≡ false
      → (handle_check parse_addr redacted s now l r).1 ≡ plain s.block_status
  unfolding handle_check
  check-unready s now l r g u f = ground (arith, fail_open-observe now l s.readiness)

  check-denies :
      (s : Server) (now : ℕ) (l : Option Lookup) (r : Request)
      → is_get r ≡ true
      → LetsThrough s l r ⊎ ((handle_check parse_addr redacted s now l r).1 ≡ plain s.block_status)
  unfolding handle_check
  check-denies s now l r g = elim (usable-cases l) [
    | inl u ↦ elim (Bool-cases (fail_open s.readiness)) [
      | inl f ↦ inl (not_ready u f)
      | inr f ↦ inr (check-unready s now l r g u f)
    ]
    | inr (k, e, u) ↦ elim (Option-cases (extract_client_ip parse_addr r.headers)) [
      | inl x ↦ inr (ground arith)
      | inr (a, x) ↦ elim (Bool-cases (k.contains a)) [
        | inl c ↦ inr (ground arith)
        | inr c ↦ inl (not_listed k a e u x c)
      ]
    ]
  ]

  check-two_ways :
      (s : Server) (now : ℕ) (l : Option Lookup) (r : Request)
      → is_get r ≡ true
      → let response = (handle_check parse_addr redacted s now l r).1 in
        (response ≡ plain (pos 200)) ⊎ (response ≡ plain s.block_status)
  check-two_ways s now l r g = elim (check-denies s now l r g) [
    | inl h ↦ inl (check-allows s now l r g h)
    | inr e ↦ inr e
  ]

  check-through :
      (s : Server) (now : ℕ) (l : Option Lookup) (r : Request)
      → IsServer s
      → is_get r ≡ true
      → (handle_check parse_addr redacted s now l r).1 ≡ plain (pos 200)
      → LetsThrough s l r
  check-through s now l r v g e = elim (check-denies s now l r g) [
    | inl h ↦ h
    | inr d ↦ absurd (block_status-ne-200 s v (ap (λ (p : Response). p.status) (sym e ∙ d)))
  ]

  check-refused :
      (s : Server) (now : ℕ) (l : Option Lookup) (r : Request)
      → is_get r ≡ false
      → ((handle_check parse_addr redacted s now l r).0 ≡ s)
        × ((handle_check parse_addr redacted s now l r).1 ≡ method_not_allowed)
        × ((handle_check parse_addr redacted s now l r).2 ≡ [])
  unfolding handle_check
  check-refused s now l r g = ground arith

  -- `/check` answers a GET with 200 exactly if the blocklist is unusable under fail-open, or it is
  -- usable and the address is parseable and not listed; any other GET gets the block status, under
  -- either startup mode. Every other method gets 405, changes nothing and logs nothing.
  pub check_decides :
      (s : Server) (now : ℕ) (l : Option Lookup) (r : Request)
      → IsServer s
      → let (s', response, events) = handle_check parse_addr redacted s now l r in
        (is_get r ≡ true → (response ≡ plain (pos 200)) ↔ LetsThrough s l r)
        × (is_get r ≡ true → (response ≡ plain (pos 200)) ⊎ (response ≡ plain s.block_status))
        × (is_get r ≡ false → (s' ≡ s) × (response ≡ method_not_allowed) × (events ≡ []))
  check_decides s now l r v = (
    λ g. (check-through s now l r v g, check-allows s now l r g),
    λ g. check-two_ways s now l r g,
    λ g. check-refused s now l r g,
  )

  -- A GET of `/check` with a usable blocklist and headers without a parseable address is denied, and
  -- one warning is logged behind the transition signals, whatever the startup mode.
  pub check_unparseable :
      (s : Server) (now : ℕ) (l : Option Lookup) (r : Request)
      → is_get r ≡ true
      → usable l ≡ true
      → extract_client_ip parse_addr r.headers ≡ none
      → let (s', response, events) = handle_check parse_addr redacted s now l r in
        (response ≡ plain s.block_status)
        × (s'.readiness ≡ (observe now l s.readiness).0)
        × (events
            ≡ map signal (observe now l s.readiness).1
              ++ unparseable_ip
                  (not (null r.headers.x_real_ip))
                  (not (null r.headers.x_forwarded_for))
                ∷ [])
  unfolding handle_check usable
  check_unparseable s now none r g u x = cc
  check_unparseable s now (some k) r g u x = ground arith

  -- A GET of `/healthz` answers 200 and says that it enforces exactly while the blocklist is usable.
  -- Otherwise it answers 503, and its `serving` field is what `/check` does at that time with every
  -- GET: let all through, or deny all.
  pub healthz_tells :
      (s : Server) (now later : ℕ) (l : Option Lookup) (h : Request)
      → is_get h ≡ true
      → let probe = (handle_healthz s now later l h).1 in
        ((usable l ≡ true)
          × (probe.status ≡ pos 200)
          × (health_serving probe.body ≡ some serving_enforcing))
        ⊎ ((usable l ≡ false)
            × (probe.status ≡ pos 503)
            × (health_serving probe.body ≡ some serving_allow_all)
            × ((r : Request)
                → is_get r ≡ true
                → (handle_check parse_addr redacted s now l r).1 ≡ plain (pos 200)))
        ⊎ ((usable l ≡ false)
            × (probe.status ≡ pos 503)
            × (health_serving probe.body ≡ some serving_deny_all)
            × ((r : Request)
                → is_get r ≡ true
                → (handle_check parse_addr redacted s now l r).1 ≡ plain s.block_status))
  unfolding handle_healthz handle_check serving
  healthz_tells s now later l h g = elim (usable-cases l) [
    | inl u ↦ elim (Bool-cases (fail_open s.readiness)) [
      | inl f ↦ inr (
          inl (
            u,
            ground arith,
            ground (arith, fail_open-observe now l s.readiness),
            λ r gr. check-allows s now l r gr (not_ready u f),
          ))
      | inr f ↦ inr (
          inr (
            u,
            ground arith,
            ground (arith, fail_open-observe now l s.readiness),
            λ r gr. check-unready s now l r gr u f,
          ))
    ]
    | inr (k, e, u) ↦ inl (u, ground arith, ground arith)
  ]

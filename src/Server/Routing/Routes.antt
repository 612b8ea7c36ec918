-- ===== src/Server/Routing/Routes.antt =====
-- internal/server/server.go: which requests reach which handler.
use text.Mathlib.Text.{◌==◌ as str_eq}
use mathlib.Core.List.{append-nil}
use bitblocker.Base.{
  ℕ, ◌≡◌, ◌≢◌, ◌↔◌, ◌⊎◌, inl, inr, refl, sym, ap, ◌∙◌, Bool, true, false, not, ◌&&◌, Option, List,
  [], ◌∷◌, ◌++◌, All, ◌==◌, if◌then◌else◌, arith, Bool-cases,
}
use bitblocker.Netip.{Addr}
use bitblocker.Server.Readiness.{Lookup}
use bitblocker.Server.ClientIp.{Text, onto_first}
use bitblocker.Server.Handlers.{Server, handle_check, handle_healthz}
use bitblocker.Server.Routing.{
  slash, dot, same, split_slash, clean_segments, ends_in_slash, unrooted, clean_path, unescape,
  segment, check_name, healthz_name, to_check, to_healthz, nowhere, target_of_segments, target_of,
  HttpRequest, moved_permanently, not_found, from_handler, dispatch, serve_http,
}

same_iff : (s t : Text) → (same s t ≡ true) ↔ (s ≡ t)
same_iff [] [] = ground arith
same_iff [] (b ∷ t) = ground arith
same_iff (a ∷ s) [] = ground arith
same_iff (a ∷ s) (b ∷ t) = ground (arith, same_iff s t)

-- A path of one segment that decodes to the name.
pub record IsAt (name path : Text) : Type 0 where
  pub segment_text : Text
  pub whole : path ≡ slash ∷ segment_text
  pub single : All (λ c. c ≢ slash) segment_text
  pub decodes : segment segment_text ≡ name

split_slash-single : (t : Text) → All (λ c. c ≢ slash) t → split_slash t ≡ t ∷ []
unfolding split_slash
split_slash-single [] h = refl
split_slash-single (c ∷ cs) h = ground (arith, split_slash-single cs h.1)

split_slash-nonempty : (t : Text) → split_slash t ≢ []
unfolding split_slash
split_slash-nonempty [] h = ground arith
split_slash-nonempty (c ∷ cs) h =
    elim (split_slash cs) as (λ ws. (if c == slash then [] ∷ ws else onto_first c ws) ≢ []) [
      | [] ↦ λ e. ground arith
      | w ∷ ws ↦ λ e. ground arith
    ]
      h

-- The first character of a single segment.
one_more :
    (c : ℕ) (cs s : Text) (ws : List Text)
    → ws ≢ []
    → (if c == slash then [] ∷ ws else onto_first c ws) ≡ s ∷ []
    → (c ≢ slash) × (x : Text) × (ws ≡ x ∷ []) × (s ≡ c ∷ x)
one_more c cs s [] n e = absurd (n refl)
one_more c cs s (w ∷ []) n e = (λ h. ground arith, w, refl, ground arith)
one_more c cs s (w ∷ v ∷ ws) n e = ground arith

split_slash-one : (t s : Text) → split_slash t ≡ s ∷ [] → (t ≡ s) × All (λ c. c ≢ slash) t
unfolding split_slash
split_slash-one [] s h = (ground arith, tt)
split_slash-one (c ∷ cs) s h =
    let (n, x, e, whole) = one_more c cs s (split_slash cs) (split_slash-nonempty cs) h in
    let (eq, rest) = split_slash-one cs x e in (ap (λ t. c ∷ t) eq ∙ sym whole, (n, rest))

-- A segment that is kept as it is.
record IsPlain (t : Text) : Type 0 where
  not_nil : t ≢ []
  not_dot : t ≢ dot ∷ []
  not_dots : t ≢ dot ∷ dot ∷ []

ends_in_slash-single :
    (c : ℕ) (t : Text) → t ≢ [] → All (λ d. d ≢ slash) t → ends_in_slash (c ∷ t) ≡ false
ends_in_slash-single c [] n h = absurd (n refl)
ends_in_slash-single c (d ∷ []) n h = ground arith
ends_in_slash-single c (d ∷ e ∷ t) n h = ends_in_slash-single d (e ∷ t) (λ x. ground arith) h.1

clean_path-single :
    (t : Text) → All (λ c. c ≢ slash) t → IsPlain t → clean_path (slash ∷ t) ≡ slash ∷ t
unfolding clean_path clean_segments
clean_path-single t h v = rw (split_slash-single t h) (
    ground (
      arith,
      ends_in_slash-single slash t v.not_nil h,
      same_iff t (dot ∷ []),
      same_iff t (dot ∷ dot ∷ []),
      kept t,
    ))
  where
    kept : (t : Text) → t ++ [] ≡ t
    kept t = append-nil t

module _ (name : Text) (n0 : name ≢ []) (n1 : name ≢ dot ∷ []) (n2 : name ≢ dot ∷ dot ∷ []) where
  named-IsPlain : (t : Text) → segment t ≡ name → IsPlain t
  unfolding unescape
  named-IsPlain t h = record {
    not_nil = λ e. n0 (sym h ∙ ap segment e);
    not_dot = λ e. n1 (sym h ∙ ap segment e);
    not_dots = λ e. n2 (sym h ∙ ap segment e);
  }

  -- A path at a name is clean.
  clean_path-IsAt : (p : Text) → IsAt name p → clean_path p ≡ p
  clean_path-IsAt p v =
      ap clean_path v.whole
      ∙ clean_path-single v.segment_text v.single (named-IsPlain v.segment_text v.decodes)
      ∙ sym v.whole

target_of-check : (p : Text) → IsAt check_name p → target_of p ≡ to_check
unfolding target_of
target_of-check p v =
    ap (λ q. target_of_segments (split_slash (unrooted q))) v.whole
    ∙ rw (split_slash-single v.segment_text v.single)
        (ground (arith, v.decodes, same_iff (segment v.segment_text) check_name))

target_of-healthz : (p : Text) → IsAt healthz_name p → target_of p ≡ to_healthz
unfolding target_of
target_of-healthz p v =
    ap (λ q. target_of_segments (split_slash (unrooted q))) v.whole
    ∙ rw (split_slash-single v.segment_text v.single) (
        ground (
          arith,
          v.decodes,
          same_iff (segment v.segment_text) check_name,
          same_iff (segment v.segment_text) healthz_name,
        ))

at_one :
    (ss : List Text)
    → (target_of_segments ss ≡ nowhere)
      ⊎ ((t : Text) × (ss ≡ t ∷ []) × ((segment t ≡ check_name) ⊎ (segment t ≡ healthz_name)))
at_one [] = inl refl
at_one (s ∷ []) = elim (Bool-cases (same (segment s) check_name)) [
  | inl c ↦ inr (s, refl, inl ((same_iff (segment s) check_name).0 c))
  | inr c ↦ elim (Bool-cases (same (segment s) healthz_name)) [
    | inl d ↦ inr (s, refl, inr ((same_iff (segment s) healthz_name).0 d))
    | inr d ↦ inl (rw (c, d) refl)
  ]
]
at_one (s ∷ t ∷ ss) = inl refl

-- The path of a request, which is empty or has a slash in front.
abbrev pub IsRooted : Text → Type 0
IsRooted p = (p ≡ []) ⊎ ((t : Text) × (p ≡ slash ∷ t))

-- A path at neither name has no handler.
target_of-nowhere :
    (p : Text) → IsRooted p → ¬ IsAt check_name p → ¬ IsAt healthz_name p → target_of p ≡ nowhere
unfolding target_of
target_of-nowhere p (inl e) c h = ap (λ q. target_of_segments (split_slash (unrooted q))) e
target_of-nowhere p (inr (t, e)) c h =
    ap (λ q. target_of_segments (split_slash (unrooted q))) e ∙ elim (at_one (split_slash t)) [
      | inl n ↦ n
      | inr (u, one, d) ↦
          let (whole, single) = split_slash-one t u one in
          absurd (elim d [
            | inl k ↦ c (record {
              segment_text = t;
              whole = e;
              single = single;
              decodes = ap segment whole ∙ k;
            })
            | inr k ↦ h (record {
              segment_text = t;
              whole = e;
              single = single;
              decodes = ap segment whole ∙ k;
            })
          ])
    ]

module _ (parse_addr : Text → Option Addr) (redacted : Addr → Text) (s : Server) (now later : ℕ)
    (l : Option Lookup) (h : HttpRequest) where
  abbrev is_moved : Bool
  is_moved = not (str_eq h.request.method "CONNECT") && not (same (clean_path h.path) h.path)

  -- A path that is not moved goes to its target.
  served :
      h.is_star ≡ false
      → is_moved ≡ false
      → serve_http parse_addr redacted s now later l h
        ≡ dispatch parse_addr redacted s now later l h.request (target_of h.path)
  unfolding serve_http dispatch
  served n m = rw (n, m, serve_http) refl

  moved :
      h.is_star ≡ false
      → is_moved ≡ true
      → serve_http parse_addr redacted s now later l h
        ≡ (s, moved_permanently (clean_path h.path) h.query, [])
  unfolding serve_http clean_path
  moved n m = rw (n, m, serve_http) refl

  not_moved : clean_path h.path ≡ h.path → is_moved ≡ false
  not_moved c = ground (arith, same_iff (clean_path h.path) h.path)

  -- A request whose path is of one segment that decodes to `check` or to `healthz` is what the handler of
  -- that name makes of it. Any other request with a rooted path leaves the server as it is, logs nothing,
  -- and is answered with 404, or, if its path is not clean, with a redirection to the clean one.
  pub routes :
      h.is_star ≡ false
      → IsRooted h.path
      → (IsAt check_name h.path
          → serve_http parse_addr redacted s now later l h
            ≡ from_handler parse_addr redacted (handle_check parse_addr redacted s now l h.request))
        × (IsAt healthz_name h.path
            → serve_http parse_addr redacted s now later l h
              ≡ from_handler parse_addr redacted (handle_healthz s now later l h.request))
        × (¬ IsAt check_name h.path
            → ¬ IsAt healthz_name h.path
            → let (s', answer, events) = serve_http parse_addr redacted s now later l h in
              (s' ≡ s)
              × (events ≡ [])
              × ((answer ≡ not_found)
                  ⊎ ((answer ≡ moved_permanently (clean_path h.path) h.query)
                      × (clean_path h.path ≢ h.path))))
  unfolding dispatch
  routes n r = (
    λ v.
        served n (
          not_moved (
            clean_path-IsAt check_name (λ e. ground arith) (λ e. ground arith) (λ e. ground arith)
              h.path v))
        ∙ ap (dispatch parse_addr redacted s now later l h.request) (target_of-check h.path v),
    λ v.
        served n (
          not_moved (
            clean_path-IsAt healthz_name (λ e. ground arith) (λ e. ground arith) (λ e. ground arith)
              h.path v))
        ∙ ap (dispatch parse_addr redacted s now later l h.request) (target_of-healthz h.path v),
    λ c z. elim (Bool-cases is_moved) [
      | inl m ↦
          let e = moved n m in
          (
            ap (λ o. o.0) e,
            ap (λ o. o.2) e,
            inr (ap (λ o. o.1) e, λ q. ground (arith, not_moved q)),
          )
      | inr m ↦
          let e =
            served n m
            ∙ ap (dispatch parse_addr redacted s now later l h.request)
                (target_of-nowhere h.path r c z) in
          (ap (λ o. o.0) e, ap (λ o. o.2) e, inl (ap (λ o. o.1) e))
    ],
  )

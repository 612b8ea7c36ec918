-- ===== src/Server/Routing.antt =====
-- internal/server/server.go: `Handler`, with what `http.ServeMux` does with its two patterns. A path is the
-- escaped path of the request's URL, byte by byte.
pub mod Routes
mod Examples
use text.Mathlib.Text.{◌==◌ as str_eq}
use bitblocker.Base.{
  ℕ, zero, suc, ◌+◌, ◌-◌, ◌*◌, String, Bool, true, false, not, ◌&&◌, ◌||◌, Option, none, some, List,
  [], ◌∷◌, ◌++◌, reverse, null, leb, ◌==◌, if◌then◌else◌,
}
use bitblocker.Base.Int.{pos}
use bitblocker.Netip.{Addr}
use bitblocker.Server.Readiness.{Lookup}
use bitblocker.Server.ClientIp.{Text, onto_first}
use bitblocker.Server.Handlers.{
  Server, Request, Response, Event, Outcome, Body, empty, plain, handle_check, handle_healthz,
}

abbrev pub slash : ℕ
slash = b'/'

abbrev pub dot : ℕ
dot = b'.'

-- Equality of texts.
abbrev pub same : Text → Text → Bool
same [] [] = true
same (a ∷ s) (b ∷ t) = a == b && same s t
same _ _ = false

-- The segments between the slashes, of which there is at least one.
unfoldable pub split_slash : Text → List Text
split_slash [] = [] ∷ []
split_slash (c ∷ cs) =
    let rest = split_slash cs in if c == slash then [] ∷ rest else onto_first c rest

abbrev pub drop_one : List Text → List Text
drop_one [] = []
drop_one (k ∷ ks) = ks

-- `path.Clean` on the segments of a rooted path; those that stand are kept in reverse.
unfoldable pub clean_segments : List Text → List Text → List Text
clean_segments kept [] = reverse kept
clean_segments kept (s ∷ ss) =
    let skipped = clean_segments kept ss in
    let popped = clean_segments (drop_one kept) ss in
    let pushed = clean_segments (s ∷ kept) ss in
    if null s || same s (dot ∷ [])
    then skipped
    else if same s (dot ∷ dot ∷ [])
    then popped
    else pushed

abbrev pub join_slash : List Text → Text
join_slash [] = []
join_slash (s ∷ ss) = slash ∷ s ++ join_slash ss

abbrev pub ends_in_slash : Text → Bool
ends_in_slash [] = false
ends_in_slash (c ∷ []) = c == slash
ends_in_slash (c ∷ d ∷ cs) = ends_in_slash (d ∷ cs)

-- The path with a slash in front.
abbrev pub rooted : Text → Text
rooted [] = slash ∷ []
rooted (c ∷ cs) = if c == slash then c ∷ cs else slash ∷ c ∷ cs

-- Behind the first slash.
abbrev pub unrooted : Text → Text
unrooted [] = []
unrooted (c ∷ cs) = cs

-- `cleanPath` of net/http, which puts a slash at the end back.
unfoldable pub clean_path : Text → Text
unfolding clean_segments split_slash
clean_path p =
    let q = rooted p in
    let np = join_slash (clean_segments [] (split_slash (unrooted q))) in
    if null np then slash ∷ [] else if ends_in_slash q then np ++ slash ∷ [] else np

abbrev pub unhex : ℕ → Option ℕ
unhex c =
    if leb b'0' c && leb c b'9'
    then some (c - b'0')
    else if leb b'a' c && leb c b'f'
    then some (c - b'a' + 10)
    else if leb b'A' c && leb c b'F'
    then some (c - b'A' + 10)
    else none

abbrev pub onto : ℕ → Option Text → Option Text
onto c none = none
onto c (some t) = some (c ∷ t)

abbrev pub onto_hex : Option ℕ → Option ℕ → Option Text → Option Text
onto_hex (some a) (some b) t = onto (16 * a + b) t
onto_hex _ _ t = none

-- `url.PathUnescape`; `none` is its error.
unfoldable pub unescape : Text → Option Text
unescape [] = some []
unescape (c ∷ []) = if c == b'%' then none else some (c ∷ [])
unescape (c ∷ d ∷ []) = let rest = unescape (d ∷ []) in if c == b'%' then none else onto c rest
unescape (c ∷ d ∷ e ∷ cs) =
    let rest = unescape (d ∷ e ∷ cs) in
    let behind = unescape cs in
    if c == b'%' then onto_hex (unhex d) (unhex e) behind else onto c rest

-- A segment as the patterns are matched with it: undecoded if it does not decode.
abbrev pub segment : Text → Text
segment t = elim (unescape t) [ none ↦ t | some u ↦ u ]

abbrev pub check_name : Text
check_name = b'c' ∷ b'h' ∷ b'e' ∷ b'c' ∷ b'k' ∷ []

abbrev pub healthz_name : Text
healthz_name = b'h' ∷ b'e' ∷ b'a' ∷ b'l' ∷ b't' ∷ b'h' ∷ b'z' ∷ []

pub data Target : Type 0 where
  to_check to_healthz nowhere : Target

abbrev pub target_of_segments : List Text → Target
target_of_segments (s ∷ []) =
    if same (segment s) check_name
    then to_check
    else if same (segment s) healthz_name
    then to_healthz
    else nowhere
target_of_segments _ = nowhere

-- The patterns `/check` and `/healthz`, of one segment each, for any method and host.
unfoldable pub target_of : Text → Target
unfolding split_slash unescape
target_of p = target_of_segments (split_slash (unrooted p))

pub record HttpRequest : Type 0 where
  pub request : Request
  pub path : Text
  pub query : Text
  -- `RequestURI == "*"`
  pub is_star : Bool

pub data Answer : Type 0 where
  handled : Response → Answer
  -- the path and the query, of which `url.URL.String` writes the Location
  moved_permanently : (path query : Text) → Answer
  not_found bad_request : Answer

module _ (parse_addr : Text → Option Addr) (redacted : Addr → Text) where
  abbrev pub from_handler : Outcome → Server × Answer × List Event
  from_handler (s, response, events) = (s, handled response, events)

  -- One handler runs, or none.
  unfoldable pub dispatch :
      Server → (now later : ℕ) → Option Lookup → Request → Target → Server × Answer × List Event
  dispatch s now later l r to_check = from_handler (handle_check parse_addr redacted s now l r)
  dispatch s now later l r to_healthz = from_handler (handle_healthz s now later l r)
  dispatch s now later l r nowhere = (s, not_found, [])

  -- `Handler`, by `ServeMux.ServeHTTP`: a path that is not clean is moved, unless the method is CONNECT.
  unfoldable pub serve_http :
      Server → (now later : ℕ) → Option Lookup → HttpRequest → Server × Answer × List Event
  unfolding dispatch clean_path target_of
  serve_http s now later l h =
      if h.is_star
      then (s, bad_request, [])
      else if not (str_eq h.request.method "CONNECT") && not (same (clean_path h.path) h.path)
      then (s, moved_permanently (clean_path h.path) h.query, [])
      else dispatch s now later l h.request (target_of h.path)

-- ===== src/Fetcher/Download.antt =====
-- internal/fetcher/fetcher.go: `New`, `fetch`, `get` and `decompress`. The HTTP client and the gzip
-- reader are parameters: what a request is answered, and the bytes that a body unpacks to.
use text.Mathlib.Text.{◌==◌ as str_eq}
use bitblocker.Base.{
  ℕ, ◌*◌, ◌^◌, String, Bool, not, Option, none, some, List, [], ◌∷◌, ◌++◌, length, null, ltb, ◌==◌,
  if◌then◌else◌,
}
use bitblocker.Base.Result.{Result, ok, err}
use bitblocker.Config.{codes}
use bitblocker.Mmdb.{LoadError}
use bitblocker.Diskcache.{WriteError}
use bitblocker.Fetcher.Calendar.{Date, days_back, format_month}

abbrev pub default_base_url : String
default_base_url = "https://download.db-ip.com/free"

abbrev pub max_decompressed_bytes : ℕ
max_decompressed_bytes = 512 * 2 ^ 20

abbrev pub month_url : String → List ℕ → List ℕ
month_url base month =
    codes base ++ (47 ∷ (codes "dbip-country-lite-" ++ (month ++ codes ".mmdb.gz")))

pub record Validators : Type 0 where
  pub etag : String
  pub last_modified : String

abbrev pub no_validators : Validators
no_validators = record { etag = ""; last_modified = "" }

-- A conditional GET: an absent header is `none`.
pub record Request : Type 0 where
  pub url : List ℕ
  pub if_none_match : Option String
  pub if_modified_since : Option String

-- What the gzip reader makes of a body: the bytes that it unpacks before it stops, and whether it
-- stops at a checked end.
pub record Stream : Type 0 where
  pub bytes : List ℕ
  pub intact : Bool

-- A reply: the body is `none` where `gzip.NewReader` fails.
pub record Response : Type 0 where
  pub status : ℕ
  pub body : Option Stream
  pub etag : String
  pub last_modified : String

pub data FetchError : Type 0 where
  bad_request no_answer not_gzip broken_stream over_cap not_published : FetchError
  unexpected_status : ℕ → FetchError
  cache_not_written : WriteError → FetchError
  not_loaded : LoadError → FetchError

-- What a GET comes to: the request cannot be built, it gets no response, or it gets one.
pub data Reply : Type 0 where
  bad_url no_response : Reply
  response : Response → Reply

abbrev pub Client : Type 0
Client = Request → Reply

pub record Fetcher : Type 0 where
  pub base_url : String
  pub cache_path : String
  pub countries : List String
  pub validators : Validators

-- `io.ReadAll` of the stream, limited to one byte more than the cap.
unfoldable pub decompress : Option Stream → Result FetchError (List ℕ)
decompress none = err not_gzip
decompress (some s) =
    if ltb max_decompressed_bytes (length s.bytes)
    then err over_cap
    else if not s.intact
    then err broken_stream
    else ok s.bytes

-- The results of `get`: the bytes of a 200 with its validators, a 304 with the ones kept, or a 404.
pub data Got : Type 0 where
  fresh : List ℕ → Validators → Got
  not_modified : Validators → Got
  not_found : Got

abbrev header : String → Option String
header v = if str_eq v "" then none else some v

unfoldable pub request_for : Fetcher → List ℕ → Request
request_for f month = record {
  url = month_url f.base_url month;
  if_none_match = header f.validators.etag;
  if_modified_since = header f.validators.last_modified;
}

abbrev pub unpacked : Response → Result FetchError (List ℕ) → Result FetchError Got
unpacked r (err e) = err e
unpacked r (ok data_bytes) =
    ok (fresh data_bytes (record { etag = r.etag; last_modified = r.last_modified }))

-- The switch of `get` over the status.
unfoldable pub classify : Validators → Response → Result FetchError Got
unfolding decompress
classify v r =
    if r.status == 200
    then unpacked r (decompress r.body)
    else if r.status == 304
    then ok (not_modified v)
    else if r.status == 404
    then ok not_found
    else err (unexpected_status r.status)

unfoldable pub replied : Validators → Reply → Result FetchError Got
unfolding classify
replied v bad_url = err bad_request
replied v no_response = err no_answer
replied v (response r) = classify v r

-- `get`.
unfoldable pub get : Client → Fetcher → List ℕ → Result FetchError Got
unfolding replied request_for
get client f month = replied f.validators (client (request_for f month))

-- What `fetch` returns without an error.
pub data Fetched : Type 0 where
  downloaded : List ℕ → Validators → Fetched
  unchanged : Validators → Fetched

abbrev pub after_prior : Result FetchError Got → Result FetchError Fetched
after_prior (err e) = err e
after_prior (ok not_found) = err not_published
after_prior (ok (not_modified v)) = ok (unchanged v)
after_prior (ok (fresh data_bytes v)) = ok (downloaded data_bytes v)

-- The result of `fetch` and the requests that it made, from the results of the two calls of `get`;
-- the second one is made only after a 404.
abbrev pub after_current :
    List Request
    → List Request
    → Result FetchError Got
    → Result FetchError Got
    → Result FetchError Fetched × List Request
after_current first both (err e) prior = (err e, first)
after_current first both (ok not_found) prior = (after_prior prior, both)
after_current first both (ok (not_modified v)) prior = (ok (unchanged v), first)
after_current first both (ok (fresh data_bytes v)) prior = (ok (downloaded data_bytes v), first)

-- `fetch`.
unfoldable pub fetch : Client → Date → Fetcher → Result FetchError Fetched × List Request
unfolding get days_back format_month request_for
fetch client now f =
    let current = format_month now in
    let prior = format_month (days_back now.day now) in
    after_current (request_for f current ∷ []) (request_for f current ∷ request_for f prior ∷ [])
      (get client f current) (get client f prior)

-- `Options`; of the client, the source and the logger `New` asks only whether they are nil.
pub record Options : Type 0 where
  pub client_given : Bool
  pub cache_path : String
  pub countries : List String
  pub source_given : Bool
  pub logger_given : Bool

pub data NewError : Type 0 where
  client_required cache_path_required countries_required source_required logger_required : NewError

-- `New`.
unfoldable pub new_fetcher : Options → Result NewError Fetcher
new_fetcher o =
    if not o.client_given
    then err client_required
    else if str_eq o.cache_path ""
    then err cache_path_required
    else if null o.countries
    then err countries_required
    else if not o.source_given
    then err source_required
    else if not o.logger_given
    then err logger_required
    else ok (record {
      base_url = default_base_url;
      cache_path = o.cache_path;
      countries = o.countries;
      validators = no_validators;
    })

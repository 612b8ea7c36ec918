-- ===== src/Fetcher/Examples.antt =====
-- Dates, servers and files on which the theorems about the fetcher are applied.
use text.Mathlib.TextEquality.{eq_iff}
use text.Mathlib.Text.{◌==◌ as str_eq}
use bitblocker.Base.{
  ℕ, ◌≡◌, ◌≢◌, ◌⊎◌, refl, subst, String, true, false, Option, none, some, List, [], ◌∷◌, arith,
}
use bitblocker.Base.Result.{ok}
use bitblocker.Blocklist.Source.{new_source}
use bitblocker.Mmdb.{Traversal}
use bitblocker.Diskcache.{FileSystem, WriteRun}
use bitblocker.Diskcache.Writing.{IsFresh}
use bitblocker.Fetcher.Calendar.{Date, days_back, format_month}
use bitblocker.Fetcher.Download.{
  Client, Response, response, Fetcher, Validators, no_validators, request_for, get, fetch,
  downloaded, decompress, classify, replied,
}
use bitblocker.Fetcher.Refresh.{State, refresh}
use bitblocker.Fetcher.Decompression.{Delivers, fetch_downloads}
use bitblocker.Fetcher.Outcomes.{Refreshed, IsBacked, refresh-Refreshed, refresh-IsBacked}

abbrev new_year : Date
new_year = record { year = 2026; month = 1; day = 3 }

-- A server that answers every request with the same three bytes.
abbrev answer : Response
answer = record {
  status = 200;
  body = some (record { bytes = 5 ∷ 6 ∷ 7 ∷ []; intact = true });
  etag = "a1";
  last_modified = "";
}

abbrev server : Client
server r = response answer

abbrev de_fetcher : Fetcher
de_fetcher = record {
  base_url = "http://x";
  cache_path = "/cache/list.mmdb";
  countries = "DE" ∷ [];
  validators = no_validators;
}

abbrev bytes : List ℕ
bytes = 5 ∷ 6 ∷ 7 ∷ []

abbrev tag : Validators
tag = record { etag = "a1"; last_modified = "" }

fetched : (fetch server new_year de_fetcher).0 ≡ ok (downloaded bytes tag)
unfolding fetch get replied classify decompress
fetched = refl

fetch_downloads_example :
    Delivers server (request_for de_fetcher (format_month new_year)) bytes tag
    ⊎ Delivers server (request_for de_fetcher (format_month (days_back 3 new_year))) bytes tag
fetch_downloads_example = fetch_downloads server new_year de_fetcher bytes tag fetched

abbrev temp : String
temp = "/cache/list.1.tmp"

abbrev no_files : FileSystem
no_files = λ p. none

abbrev a_write : WriteRun
a_write = record {
  now = 100;
  mkdir_fails = false;
  temp_name = some temp;
  chunks = [];
  copied = true;
  sync_fails = false;
  close_fails = false;
  rename_fails = false;
  remove_fails = false;
}

abbrev path : String
path = "/cache/list.mmdb"

other : path ≢ temp
other h = let eq : str_eq path temp ≡ true = (eq_iff path temp).1 h in ground (arith, eq)

a_write-IsFresh : IsFresh a_write path no_files
a_write-IsFresh tmp h =
    let e : temp ≡ tmp = cc in
    subst (λ (t : String). (path ≢ t) × (no_files t ≡ none)) e (other, refl)

abbrev start : State
start = record { fetcher = de_fetcher; source = new_source; fs = no_files }

-- A reader that finds no network in any file.
abbrev reader : List ℕ → Option Traversal
reader bs = some (record { rows = []; complete = true })

refresh-Refreshed_example :
    Refreshed server reader new_year a_write start
      (refresh server reader new_year a_write start).0
      (refresh server reader new_year a_write start).1
refresh-Refreshed_example = refresh-Refreshed server reader new_year a_write start a_write-IsFresh

start-IsBacked : IsBacked start
start-IsBacked v = absurd (v refl)

refresh-IsBacked_example : IsBacked (refresh server reader new_year a_write start).0
refresh-IsBacked_example =
    refresh-IsBacked server reader new_year a_write start a_write-IsFresh start-IsBacked

-- ===== src/Daemon/Serving/Examples.antt =====
-- A refresh on which the theorem about the answers behind it is applied.
use bitblocker.Base.{◌≡◌, refl, true, none, some, [], ◌∷◌, ◌&&◌, any, arith, if◌then◌else◌}
use bitblocker.Base.Int.{pos}
use bitblocker.Base.Result.{ok}
use bitblocker.Netip.{unmap, covers}
use bitblocker.Blocklist.Source.{new_source}
use bitblocker.Mmdb.{is_wanted}
use bitblocker.Mmdb.Networks.{prefix_of}
use bitblocker.Diskcache.{write, with_temp, write_temp}
use bitblocker.Fetcher.Calendar.{Date}
use bitblocker.Fetcher.Download.{
  Client, Response, response, Validators, no_validators, fetch, get, replied, classify, decompress,
  downloaded,
}
use bitblocker.Fetcher.Refresh.{State, outcome_updated, with_bytes, refresh}
use bitblocker.Server.Readiness.{usable}
use bitblocker.Server.Handlers.{plain}
use bitblocker.Daemon.{lookup_source}
use bitblocker.Daemon.Examples.{
  path, countries, some_country, no_files, a_write, a_write-IsFresh, networks, networks-IsNetwork,
  reader, parser, hide, closed_server, from_ten, client, client_found,
}
use bitblocker.Daemon.Serving.{answer, refresh_serves}

abbrev new_year : Date
new_year = record { year = 2026; month = 1; day = 3 }

abbrev delivery : Response
delivery = record {
  status = 200;
  body = some (record { bytes = 5 ∷ 6 ∷ []; intact = true });
  etag = "a1";
  last_modified = "";
}

abbrev web : Client
web r = response delivery

abbrev start : State
start = record {
  fetcher = record {
    base_url = "http://x";
    cache_path = path;
    countries = countries;
    validators = no_validators;
  };
  source = new_source;
  fs = no_files;
}

abbrev tag : Validators
tag = record { etag = "a1"; last_modified = "" }

fetched : (fetch web new_year start.fetcher).0 ≡ ok (downloaded (5 ∷ 6 ∷ []) tag)
unfolding fetch get replied classify decompress
fetched = refl

written : (write (with_bytes (5 ∷ 6 ∷ []) a_write) path no_files).error ≡ none
unfolding write with_temp write_temp
written = refl

refresh_serves_example :
    ((refresh web reader new_year a_write start).1 ≡ ok outcome_updated)
    × (usable (lookup_source (refresh web reader new_year a_write start).0.source) ≡ true
        → (answer parser hide closed_server 130 from_ten
            (refresh web reader new_year a_write start).0).1
          ≡ (if any
                (λ n. is_wanted countries n.country && covers (prefix_of n) (unmap client))
                networks
              then plain (pos 403)
              else plain (pos 200)))
refresh_serves_example =
    refresh_serves web reader new_year a_write start parser hide closed_server 130 from_ten networks
      (5 ∷ 6 ∷ []) tag client a_write-IsFresh fetched written refl some_country networks-IsNetwork
      (omega arith) refl client_found

-- ===== src/Daemon/Serving.antt =====
-- cmd/bitblocker/main.go: what the server answers behind a refresh.
mod Examples
use bitblocker.Base.{
  ℕ, ◌≡◌, ◌≢◌, inl, inr, refl, sym, ap, subst, ◌∙◌, String, Bool, true, false, ◌&&◌, Option, none,
  some, List, [], map, any, All, arith, Bool-cases, Option-cases, if◌then◌else◌, ltb,
}
use bitblocker.Base.Int.{pos}
use bitblocker.Base.Result.{Result, ok, err}
use bitblocker.Netip.{Addr, IsAddr, unmap, covers}
use bitblocker.Blocklist.Trie.{Trie, contains}
use bitblocker.Blocklist.Source.{Source, current_trie, swap}
use bitblocker.Mmdb.{Traversal, is_wanted, load_country_blocklist}
use bitblocker.Mmdb.Networks.{Network, IsNetwork, row_of, prefix_of}
use bitblocker.Mmdb.Loading.{load_networks}
use bitblocker.Diskcache.{WriteRun, write}
use bitblocker.Diskcache.Writing.{IsFresh}
use bitblocker.Fetcher.Calendar.{Date}
use bitblocker.Fetcher.Download.{
  Client, Validators, FetchError, Fetched, downloaded, unchanged, fetch,
}
use bitblocker.Fetcher.Refresh.{State, Outcome, outcome_updated, with_bytes, publish, refresh}
use bitblocker.Fetcher.Outcomes.{refresh-publish}
use bitblocker.Server.Readiness.{Lookup, usable}
use bitblocker.Server.ClientIp.{Text, extract_client_ip}
use bitblocker.Server.Handlers.{Server, Request, Outcome as Answer, plain, is_get, handle_check}
use bitblocker.Daemon.{lookup_of, lookup_source}
use bitblocker.Daemon.Wiring.{serves}

-- The answer of `/check` with the source of a state.
abbrev pub answer : (Text → Option Addr) → (Addr → Text) → Server → ℕ → Request → State → Answer
answer parse_addr redacted srv now r t =
    handle_check parse_addr redacted srv now (lookup_source t.source) r

module _ (client : Client) (open_mmdb : List ℕ → Option Traversal) (date : Date) (run : WriteRun)
    (s : State) where
  module _ (parse_addr : Text → Option Addr) (redacted : Addr → Text) (srv : Server) (now : ℕ)
      (r : Request) where
    serves_trie :
        (k : Trie) (t : State) (a : Addr) (b : Bool)
        → current_trie t.source ≡ some k
        → usable (lookup_source t.source) ≡ true
        → is_get r ≡ true
        → extract_client_ip parse_addr r.headers ≡ some a
        → contains k a ≡ b
        → (answer parse_addr redacted srv now r t).1
          ≡ (if b then plain srv.block_status else plain (pos 200))
    serves_trie k t a b cur u g x c =
        serves parse_addr redacted srv now r a k t.source b cur u g x c

    -- A refresh whose download is whole and written without an error, with a fresh temporary name, and is
    -- a database of well-formed networks, for some wanted countries, succeeds as an update; and from
    -- then on a GET of `/check` from an address that can be parsed gets the block status if a network
    -- of a wanted country covers the address, and 200 if none does, while the list is usable.
    pub refresh_serves :
        (ns : List Network) (bytes : List ℕ) (v : Validators) (a : Addr)
        → IsFresh run s.fetcher.cache_path s.fs
        → (fetch client date s.fetcher).0 ≡ ok (downloaded bytes v)
        → (write (with_bytes bytes run) s.fetcher.cache_path s.fs).error ≡ none
        → open_mmdb bytes ≡ some (record { rows = map row_of ns; complete = true })
        → s.fetcher.countries ≢ []
        → All IsNetwork ns
        → IsAddr a
        → is_get r ≡ true
        → extract_client_ip parse_addr r.headers ≡ some a
        → ((refresh client open_mmdb date run s).1 ≡ ok outcome_updated)
          × (usable (lookup_source (refresh client open_mmdb date run s).0.source) ≡ true
              → (answer parse_addr redacted srv now r (refresh client open_mmdb date run s).0).1 ≡ (
                  if any
                    (λ n. is_wanted s.fetcher.countries n.country && covers (prefix_of n) (unmap a))
                    ns
                  then plain srv.block_status
                  else plain (pos 200)))
    unfolding publish current_trie swap
    refresh_serves ns bytes v a fresh f done o c wf ha g x =
        let (k, loads, found) = load_networks s.fetcher.countries ns c wf in
        let loaded = ap (λ z. load_country_blocklist z s.fetcher.countries) o ∙ loads in
        let fs = (write (with_bytes bytes run) s.fetcher.cache_path s.fs).fs in
        let end =
          refresh-publish client open_mmdb date run s bytes v fresh f done
          ∙ ap (publish (record s { fs = fs }) v) loaded in
        (
          ap (λ z. z.1) end,
          λ u.
              serves_trie k (refresh client open_mmdb date run s).0 a _
                (ap (λ z. current_trie z.0.source) end) u g x (found a ha),
        )

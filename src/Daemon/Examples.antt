-- ===== src/Daemon/Examples.antt =====
-- A configuration, a cache and a request on which the theorems about the daemon are applied.
use text.Mathlib.TextEquality.{eq_iff}
use text.Mathlib.Text.{◌==◌ as str_eq}
use bitblocker.Base.{
  ℕ, ◌≡◌, ◌≢◌, ◌⊎◌, inl, inr, refl, subst, String, Bool, true, false, ◌&&◌, Option, none, some,
  List, [], ◌∷◌, map, any, All, arith, if◌then◌else◌,
}
use bitblocker.Base.Int.{pos}
use bitblocker.Base.Result.{ok, err}
use bitblocker.Netip.{Addr, v4, unmap, covers, masked, mask_addr, prefix_from}
use bitblocker.Netip.Bits.{mask_bytes}
use bitblocker.Blocklist.Source.{new_source, current_trie, swap}
use bitblocker.Blocklist.Trie.{
  new_trie, insert, insert_addr, insert_at, insert_path, set_root4, set_root6, bit_at, len,
}
use bitblocker.Config.{Config}
use bitblocker.Config.Validity.{IsValid, IsCountryCode}
use bitblocker.Mmdb.{
  Traversal, is_wanted, load_country_blocklist, load_rows, load_row, prefix_from_ip_net, mask_ones,
  mask_length, leading_ones,
}
use bitblocker.Mmdb.Networks.{Network, IsNetwork, row_of, prefix_of, cidr_mask}
use bitblocker.Diskcache.{
  FileSystem, WriteRun, write, with_temp, write_temp, copy_chunks, load, load_file,
}
use bitblocker.Diskcache.Writing.{IsFresh}
use bitblocker.Server.Readiness.{usable, startup_fail_closed}
use bitblocker.Server.ClientIp.{Text, extract_client_ip, trim_space}
use bitblocker.Server.Handlers.{Server, Request, plain, handle_check}
use bitblocker.Fetcher.Download.{countries_required}
use bitblocker.Daemon.{
  lookup_source, load_disk_cache, after_load, set_up, fetcher_failed, Components,
}
use bitblocker.Daemon.Startup.{set_up-IsValid}
use bitblocker.Daemon.Wiring.{Cached, load_disk_cache-Cached, cached_start}

abbrev pub path : String
path = "/cache/list.mmdb"

abbrev pub blocks_de : Config
blocks_de = record {
  listen = record { host = "::1"; port = pos 8080 };
  block = record { countries = "DE" ∷ []; asns = [] };
  sources = record { dbip_enabled = true; bgptools_enabled = false };
  refresh = record { schedule = "0 3 * * *"; timeout = pos 30000000000 };
  behavior = record {
    log_blocked = true;
    log_allowed = false;
    response_code = pos 403;
    startup_mode = "fail-closed";
  };
  cache = record { path = path; max_age = pos 50 };
  logging = record { level = "info"; format = "json" };
}

abbrev pub parses : String → Bool
parses s = true

text_apart : (s t : String) → str_eq s t ≡ false → s ≢ t
text_apart s t h e = let eq : str_eq s t ≡ true = (eq_iff s t).1 e in ground (arith, eq)

de-IsCountryCode : IsCountryCode "DE"
de-IsCountryCode = record {
  first = 68;
  second = 69;
  two = refl;
  upper_first = omega arith;
  upper_second = omega arith;
}

abbrev pub countries : List String
countries = "DE" ∷ []

pub some_country : countries ≢ []
some_country h = ground arith

pub blocks_de-IsValid : IsValid parses blocks_de
blocks_de-IsValid = record {
  valid_listen = (omega arith, omega arith, text_apart "::1" "" refl);
  valid_block = (inl some_country, (de-IsCountryCode, tt));
  valid_sources = inl refl;
  valid_refresh = (text_apart "0 3 * * *" "" refl, refl, omega arith);
  valid_behavior = (inl refl, omega arith, omega arith);
  valid_cache = (text_apart path "" refl, omega arith);
  valid_level = inr (inl refl);
  valid_format = inl refl;
}

set_up-IsValid_example :
    ((c : Components) × (set_up blocks_de ≡ ok c) × (blocks_de.block.countries ≢ []))
    ⊎ ((set_up blocks_de ≡ err (fetcher_failed countries_required))
        × (blocks_de.block.countries ≡ [])
        × (blocks_de.block.asns ≢ []))
set_up-IsValid_example = set_up-IsValid parses blocks_de blocks_de-IsValid

abbrev temp : String
temp = "/cache/list.1.tmp"

abbrev pub no_files : FileSystem
no_files = λ p. none

abbrev pub a_write : WriteRun
a_write = record {
  now = 100;
  mkdir_fails = false;
  temp_name = some temp;
  chunks = (2 ∷ 3 ∷ []) ∷ [];
  copied = true;
  sync_fails = false;
  close_fails = false;
  rename_fails = false;
  remove_fails = false;
}

pub a_write-IsFresh : IsFresh a_write path no_files
a_write-IsFresh tmp h =
    let e : temp ≡ tmp = cc in
    subst (λ (t : String). (path ≢ t) × (no_files t ≡ none)) e (text_apart path temp refl, refl)

a_write_done : (write a_write path no_files).error ≡ none
unfolding write with_temp write_temp
a_write_done = refl

abbrev pub networks : List Network
networks = record { bytes = 10 ∷ 0 ∷ 0 ∷ 0 ∷ []; bits = 8; country = "DE" } ∷ []

pub networks-IsNetwork : All IsNetwork networks
networks-IsNetwork = (inl (omega arith, omega arith), tt)

abbrev pub reader : List ℕ → Option Traversal
reader bs = some (record { rows = map row_of networks; complete = true })

load_disk_cache-Cached_example :
    let (src, fs, lines) = load_disk_cache reader false false 120 blocks_de new_source no_files in
    Cached path false new_source no_files
      (load reader false no_files path (pos 50) 120 countries)
      src
      fs
load_disk_cache-Cached_example =
    load_disk_cache-Cached reader false false 120 blocks_de new_source no_files

abbrev pub parser : Text → Option Addr
parser (d ∷ []) = some (v4 (d ∷ d ∷ d ∷ d ∷ []))
parser _ = none

abbrev pub hide : Addr → Text
hide a = []

abbrev pub closed_server : Server
closed_server = record {
  addr = "[::1]:8080";
  block_status = pos 403;
  log_blocked = true;
  log_allowed = false;
  readiness = record {
    is_usable = true;
    ever_ready = false;
    unusable_since = 0;
    fail_open_total = 0;
    fail_open_since_heartbeat = 0;
    fail_open_at_window_start = 0;
    mode = startup_fail_closed;
  };
}

abbrev pub from_ten : Request
from_ten = record { method = "GET"; headers = record { x_real_ip = 65 ∷ []; x_forwarded_for = [] } }

abbrev pub client : Addr
client = v4 (65 ∷ 65 ∷ 65 ∷ 65 ∷ [])

pub client_found : extract_client_ip parser from_ten.headers ≡ some client
unfolding extract_client_ip trim_space unmap
client_found = refl

after_start-usable :
    usable (
      lookup_source
        (load_disk_cache reader false false 120 blocks_de new_source
          (write a_write path no_files).fs).0)
    ≡ true
unfolding usable lookup_source load_disk_cache after_load current_trie swap new_source load
    load_file load_country_blocklist load_rows load_row prefix_from_ip_net mask_ones mask_length
    leading_ones cidr_mask write with_temp write_temp copy_chunks new_trie insert insert_addr
    insert_at insert_path set_root4 set_root6 bit_at masked mask_addr mask_bytes prefix_from unmap
    len
after_start-usable = refl

cached_start_example :
    (handle_check parser hide closed_server 130
      (lookup_source
        (load_disk_cache reader false false 120 blocks_de new_source
          (write a_write path no_files).fs).0)
      from_ten).1
    ≡ (if any (λ n. is_wanted countries n.country && covers (prefix_of n) (unmap client)) networks
        then plain (pos 403)
        else plain (pos 200))
cached_start_example =
    cached_start parser hide closed_server 130 from_ten client reader false 120 blocks_de new_source
      a_write no_files networks a_write-IsFresh a_write_done refl (omega arith) some_country
      networks-IsNetwork (omega arith) refl client_found after_start-usable

-- ===== src/Config/Examples.antt =====
-- Configurations on which the theorems about them are applied.
use bitblocker.Base.{ℕ, ◌≡◌, ◌↔◌, refl, String, Bool, true, false, Option, some, List, [], ◌∷◌}
use bitblocker.Base.Int.{pos}
use bitblocker.Base.Result.{ok}
use bitblocker.Config.{
  Config, bad_port, bad_country, bad_startup_mode, validate, validate_listen, validate_block,
  country_problems, country_code_matches, validate_sources, validate_refresh, validate_behavior,
  validate_cache, validate_logging, load,
}
use bitblocker.Config.Faults.{Fault, Reports}
use bitblocker.Config.Faults.Complete.{Reports-validate}
use bitblocker.Config.Defaults.{Loads, load_iff}

abbrev parses : String → Bool
parses s = true

-- The defaults with Germany blocked, from DB-IP.
abbrev blocks_de : Config
blocks_de = record {
  listen = record { host = "127.0.0.1"; port = pos 8080 };
  block = record { countries = "DE" ∷ []; asns = [] };
  sources = record { dbip_enabled = true; bgptools_enabled = false };
  refresh = record { schedule = "0 3 * * *"; timeout = pos 30000000000 };
  behavior = record {
    log_blocked = true;
    log_allowed = false;
    response_code = pos 403;
    startup_mode = "fail-closed";
  };
  cache = record { path = "/tmp/list.mmdb"; max_age = pos 172800000000000 };
  logging = record { level = "info"; format = "json" };
}

-- A port, a country and a startup mode that are none.
abbrev broken : Config
broken = record blocks_de {
  listen = record { host = "127.0.0.1"; port = pos 70000 };
  block = record { countries = "DE" ∷ "de" ∷ []; asns = [] };
  behavior = record {
    log_blocked = true;
    log_allowed = false;
    response_code = pos 403;
    startup_mode = "open";
  };
}

Reports-validate_example :
    Reports (validate parses broken) (bad_country 1 "de") ↔ Fault parses broken (bad_country 1 "de")
Reports-validate_example = Reports-validate parses broken (bad_country 1 "de")

three_problems :
    validate parses broken
    ≡ bad_port (pos 70000) ∷ bad_country 1 "de" ∷ bad_startup_mode "open" ∷ []
unfolding validate validate_listen validate_block country_problems country_code_matches
    validate_sources validate_refresh validate_behavior validate_cache validate_logging
three_problems = refl

no_problem : validate parses blocks_de ≡ []
unfolding validate validate_listen validate_block country_problems country_code_matches
    validate_sources validate_refresh validate_behavior validate_cache validate_logging
no_problem = refl

abbrev file : String → Option (List ℕ)
file path = some []

-- A decoder of files that block Germany and set the source.
abbrev to_de : List ℕ → Config → Option Config
to_de raw c = some blocks_de

load_iff_example :
    (load file to_de parses "config.yaml" ≡ ok blocks_de)
    ↔ Loads file to_de parses "config.yaml" blocks_de
load_iff_example = load_iff file to_de parses "config.yaml" blocks_de

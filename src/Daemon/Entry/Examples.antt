-- ===== src/Daemon/Entry/Examples.antt =====
-- A command line and a whole run of the process on which the theorems about `run` are applied.
use bitblocker.Base.{
  ℕ, ◌≡◌, ◌≢◌, ◌↔◌, refl, String, false, not, ◌&&◌, Option, none, some, List, [], ◌∷◌, ◌==◌, arith,
}
use bitblocker.Base.Result.{ok}
use bitblocker.Netip.{Addr}
use bitblocker.Server.ClientIp.{Text}
use bitblocker.Server.Running.{
  sent, server_closed, begin_run as begin_server, beat_stops, listener_closes, see_cancel,
  shut_down, receive, cancel_beat, join,
}
use bitblocker.Scheduler.Running.{Cron, IsCron, begin_run as begin_scheduler, give_in, leave}
use bitblocker.Config.{Config}
use bitblocker.Config.Defaults.{Loads, loads}
use bitblocker.Daemon.{Components}
use bitblocker.Daemon.Running.{
  Running, Reach, ended, exit_error, begin_run, signals, server_steps, scheduler_steps, stop_all,
  join_all, begun, steps,
}
use bitblocker.Daemon.Examples.{blocks_de, parses, blocks_de-IsValid, some_country}
use bitblocker.Daemon.Entry.{
  default_path, parse_args, prepare, read_word, split_value, exit_code, ran,
}
use bitblocker.Daemon.Entry.Exits.{CleanRun, load_config, starts_iff, exits_clean}

abbrev arguments : List String
arguments = "-config=/etc/a.yaml" ∷ []

abbrev disk : String → Option (List ℕ)
disk p = some []

abbrev decoder : List ℕ → Config → Option Config
decoder raw d = some blocks_de

config_given : Loads disk decoder parses "/etc/a.yaml" blocks_de
config_given = loads [] refl refl blocks_de-IsValid

path_given : parse_args false default_path arguments ≡ ok "/etc/a.yaml"
unfolding parse_args read_word split_value
path_given = refl

starts_iff_example :
    ((c : Components) × (prepare (load_config disk decoder parses) arguments ≡ ok (blocks_de, c)))
    ↔ ((p : String) × (parse_args false default_path arguments ≡ ok p)
        × Loads disk decoder parses p blocks_de
        × (blocks_de.block.countries ≢ []))
starts_iff_example = starts_iff disk decoder parses arguments blocks_de

prepared :
    (c : Components) × (prepare (load_config disk decoder parses) arguments ≡ ok (blocks_de, c))
prepared = starts_iff_example.1 ("/etc/a.yaml", path_given, config_given, some_country)

abbrev parser : Text → Option Addr
parser t = none

abbrev hide : Addr → Text
hide a = []

abbrev cron : Cron
cron = record { add = λ e. none; starts = λ s n. not s && n == 0; drained = λ n. n == 0 }

cron-IsCron : IsCron cron
cron-IsCron = record {
  skips = λ s n h. ground arith;
  stops = λ n. refl;
  waits = λ n h. ground arith;
  lets_go = refl;
}

-- A signal comes at once.
clean_run :
    (t : Running) × Reach parser hide cron prepared.0.scheduling prepared.0.serving 5 none t
    × (t.place ≡ ended none)
unfolding begin_run begin_server begin_scheduler sent exit_error
clean_run = (
  _,
  steps _ _
      (steps _ _
        (steps _ _
          (steps _ _
            (steps _ _
              (steps _ _
                (steps _ _
                  (steps _ _
                    (steps _ _
                      (steps _ _
                        (steps _ _ (steps _ _ begun signals)
                          (server_steps _ (see_cancel refl refl)))
                        (server_steps _ (shut_down refl)))
                      (server_steps _ (listener_closes refl refl)))
                    (server_steps _ (receive server_closed refl refl)))
                  (server_steps _ (cancel_beat none refl)))
                (server_steps _ (beat_stops refl refl)))
              (server_steps _ (join none refl refl)))
            (stop_all none refl refl))
          (scheduler_steps _ (give_in 0 refl refl)))
        (scheduler_steps _ (leave refl refl)))
      (join_all none none refl refl),
  refl,
)

exits_clean_example : CleanRun disk decoder parses parser hide cron arguments
unfolding exit_code
exits_clean_example =
    exits_clean disk decoder parses parser hide cron arguments none cron-IsCron
      (ran blocks_de prepared.0 5 none clean_run.0 none prepared.1 clean_run.1 clean_run.2) refl

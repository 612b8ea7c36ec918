-- ===== src/Daemon/Entry.antt =====
-- cmd/bitblocker/main.go: the command line, and `run` around the components.
pub mod Exits
mod Examples
use Prim.Native.Char.{code}
use Prim.Native.String.{[] as end, ◌∷◌ as char_cons}
use text.Mathlib.Text.{◌==◌ as str_eq}
use bitblocker.Base.{
  ℕ, String, ◌≡◌, Bool, true, false, ◌||◌, Option, none, some, List, [], ◌∷◌, ◌==◌, if◌then◌else◌,
}
use bitblocker.Base.Result.{Result, ok, err, ◌>>=◌}
use bitblocker.Config.{Config, LoadError, load, is_empty}
use bitblocker.Netip.{Addr}
use bitblocker.Server.Readiness.{Lookup}
use bitblocker.Server.ClientIp.{Text}
use bitblocker.Server.Running.{RunError}
use bitblocker.Scheduler.Running.{Cron}
use bitblocker.Daemon.Running.{Running, Reach, ended}
use bitblocker.Daemon.{Components, SetupError, set_up, fail_with}

-- The errors of `flag.Parse`.
pub data FlagError : Type 0 where
  bad_syntax not_defined needs_argument : String → FlagError
  help_requested : FlagError

-- An argument as `flag` reads it.
pub data Word : Type 0 where
  operand terminator bad : Word
  flag : (name : String) (value : Option String) → Word

-- The text before the first `=`, and the one behind it.
unfoldable pub split_value : String → String × Option String
split_value String.[] = ("", none)
split_value (String.◌∷◌ c s) =
    let (name, value) = split_value s in
    if code c == 61 then ("", some s) else (String.◌∷◌ c name, value)

-- Behind the minus signs.
abbrev pub name_of : String → Word
name_of String.[] = bad
name_of (String.◌∷◌ c s) =
    let (name, value) = split_value (String.◌∷◌ c s) in
    if code c == 45 || code c == 61 then bad else flag name value

abbrev pub after_two : String → Word
after_two String.[] = terminator
after_two (String.◌∷◌ c s) = name_of (String.◌∷◌ c s)

abbrev pub after_minus : String → Word
after_minus String.[] = operand
after_minus (String.◌∷◌ c s) = if code c == 45 then after_two s else name_of (String.◌∷◌ c s)

unfoldable pub read_word : String → Word
read_word String.[] = operand
read_word (String.◌∷◌ c s) = if code c == 45 then after_minus s else operand

abbrev pub undefined : String → FlagError
undefined name = if str_eq name "help" || str_eq name "h" then help_requested else not_defined name

-- `flag.Parse` with the one flag `config`, from its value so far; `expects` says that the argument
-- before was the flag without a value.
unfoldable pub parse_args : (expects : Bool) (path : String) → List String → Result FlagError String
parse_args true path [] = err (needs_argument "config")
parse_args true path (value ∷ args) = parse_args false value args
parse_args false path [] = ok path
parse_args false path (s ∷ args) = elim (read_word s) [
  | operand ↦ ok path
  | terminator ↦ ok path
  | bad ↦ err (bad_syntax s)
  | flag name (some value) ↦
      if str_eq name "config" then parse_args false value args else err (undefined name)
  | flag name none ↦
      if str_eq name "config" then parse_args true path args else err (undefined name)
]

abbrev pub default_path : String
default_path = "/etc/bitblocker/config.yaml"

pub data ExitError : Type 0 where
  flag_failed : FlagError → ExitError
  config_failed : LoadError → ExitError
  not_set_up : SetupError → ExitError
  run_failed : RunError → ExitError

abbrev pub exit_failure : ℕ
exit_failure = 1

-- `main`: 0 unless `run` returns an error.
unfoldable pub exit_code : Option ExitError → ℕ
exit_code none = 0
exit_code (some e) = exit_failure

-- The error of `runComponents` as one of `run`.
abbrev pub exit_error_of : Option RunError → Option ExitError
exit_error_of none = none
exit_error_of (some e) = some (run_failed e)

-- `run` up to the components, but for the load of the disk cache, which cannot fail; the argument is
-- `config.Load`.
unfoldable pub prepare :
    (String → Result LoadError Config) → List String → Result ExitError (Config × Components)
prepare load_config args = fail_with flag_failed (parse_args false default_path args) >>= λ path.
    fail_with config_failed (load_config path) >>= λ cfg.
    fail_with not_set_up (set_up cfg) >>= λ c. ok (cfg, c)

-- What `run` can return.
pub data Run (parse_addr : Text → Option Addr) (redacted : Addr → Text) (cron : Cron)
    (load_config : String → Result LoadError Config) (args : List String)
    : Option ExitError → Type 0 where
  not_started :
      (e : ExitError)
      → prepare load_config args ≡ err e
      → Run parse_addr redacted cron load_config args (some e)
  ran :
      (cfg : Config) (c : Components) (now : ℕ) (l : Option Lookup) (t : Running)
      (r : Option RunError)
      → prepare load_config args ≡ ok (cfg, c)
      → Reach parse_addr redacted cron c.scheduling c.serving now l t
      → t.place ≡ ended r
      → Run parse_addr redacted cron load_config args (exit_error_of r)

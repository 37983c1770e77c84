-- ===== src/CommandLine.antt =====
-- main.go: the command line. What the program reads of the machine and starts is the parameter
-- `Program`; the parser of `flag` is a part of it.
pub mod Overrides
pub mod Started
use cloud_route_manager.Base.{
  ℕ, Text, Eq, codes, Bool, true, false, List, [], ◌∷◌, ◌++◌, if◌then◌else◌, Option, none, some,
  Error, Result, ok, err,
}
use cloud_route_manager.Time.{Duration, nanoseconds}
use cloud_route_manager.Config.{Config, General, validate}
use cloud_route_manager.Config.Decoding.{load}
use cloud_route_manager.Logging.{Logger, new_logger}

-- The flags that `newOptions` registers. Those of the last line override nothing by their own.
pub data Flag : Type 0 where
  interval_flag log_severity_flag log_file_flag log_format_flag dry_run_flag cloud_flag : Flag
  interface_flag ip_address_flag timeout_flag action_timeout_flag remove_stale_local_routes_flag :
      Flag
  config_flag once_flag check_config_flag version_flag : Flag

pub Flag-discrete : Discrete Flag
Flag-discrete = hlevel

instance unfoldable pub flag_eq : Eq Flag
unfolding Flag-discrete
flag_eq = record { dec = Flag-discrete }

-- `options`. `given` lists the flags that `Visit` goes over: those that were set.
pub record Options : Type 0 where
  pub given : List Flag
  pub config_path : Text
  pub once : Bool
  pub check_config : Bool
  pub version : Bool
  pub interval : Duration
  pub log_severity : Text
  pub log_file : Text
  pub log_format : Text
  pub dry_run : Bool
  pub cloud : Text
  pub iface : Text
  pub ip_address : Text
  pub timeout : Duration
  pub action_timeout : Duration
  pub remove_stale_local_routes : Bool

-- The function that `applyTo` gives to `Visit`.
unfoldable pub apply_flag : Options → Flag → General → General
apply_flag o interval_flag g = record g { interval = o.interval }
apply_flag o log_severity_flag g = record g { log_severity = o.log_severity }
apply_flag o log_file_flag g = record g { log_file = o.log_file }
apply_flag o log_format_flag g = record g { log_format = o.log_format }
apply_flag o dry_run_flag g = record g { dry_run = o.dry_run }
apply_flag o cloud_flag g = record g { cloud = o.cloud }
apply_flag o interface_flag g = record g { interface = o.iface }
apply_flag o ip_address_flag g = record g { ip_address = o.ip_address }
apply_flag o timeout_flag g = record g { timeout = o.timeout }
apply_flag o action_timeout_flag g = record g { action_timeout = o.action_timeout }
apply_flag o remove_stale_local_routes_flag g = record g {
  remove_stale_local_routes = o.remove_stale_local_routes;
}
apply_flag o _ g = g

unfoldable pub visit : Options → List Flag → General → General
visit o [] g = g
visit o (f ∷ fs) g = visit o fs (apply_flag o f g)

abbrev pub if_once : Bool → General → General
if_once true g = record g { interval = nanoseconds 0 }
if_once false g = g

-- `applyTo`
unfoldable pub apply_to : Options → Config → Config
apply_to o c = record c { general = if_once o.once (visit o o.given c.general) }

-- What `run` takes of the machine: the parser of the flags, files, the YAML decoder, the output, and
-- `app.New` and `App.Run` with the signals that they are given. The file that the log is written to is
-- opened, and no more is said of it. `is_canceled` is `errors.Is(err, context.Canceled)`.
pub record Program : Type 1 where
  pub World : Type 0
  pub App : Type 0
  pub version : Text
  pub commit : Text
  pub date : Text
  pub parse_flags : List Text → Result Options
  pub read_file : World → Text → Result Text
  pub decode : Text → Config → Result Config
  pub open_file : World → Text → Option Error
  pub print : Text → World → World
  pub new_app : Config → World → Result App × World
  pub run_app : App → World → Option Error × World
  pub is_canceled : Error → Bool

module _ (p : Program) where
  open p use {
    World, App, version, commit, date, parse_flags, read_file, decode, open_file, print, new_app,
    run_app, is_canceled,
  }

  abbrev pub version_line : Text
  version_line =
      codes "cloud-route-manager "
      ++ (version ++ (codes " (commit " ++ (commit ++ (codes ", built " ++ (date ++ codes ")\n")))))

  abbrev pub unless_canceled : Option Error × World → Option Error × World
  unless_canceled (none, w) = (none, w)
  unless_canceled (some e, w) = (if is_canceled e then none else some e, w)

  abbrev pub with_app : Result App × World → Option Error × World
  with_app (err e, w) = (some e, w)
  with_app (ok a, w) = unless_canceled (run_app a w)

  abbrev pub with_logger : Config → Result Logger → World → Option Error × World
  with_logger c (err e) w = (some e, w)
  with_logger c (ok log) w = with_app (new_app c w)

  -- What `run` does with the configuration that it has settled.
  unfoldable pub serve : Config → World → Option Error × World
  serve c w = with_logger c (new_logger (open_file w) c.general) w

  abbrev pub settled : Options → Config → Option Error → World → Option Error × World
  settled o c (some e) w = (some e, w)
  settled o c none w =
      let printed = print (o.config_path ++ codes ": ok\n") w in
      if o.check_config then (none, printed) else serve c w

  abbrev pub loaded : Options → Result Config → World → Option Error × World
  loaded o (err e) w = (some e, w)
  loaded o (ok c) w = settled o (apply_to o c) (validate (apply_to o c)) w

  abbrev pub parsed : Result Options → World → Option Error × World
  parsed (err e) w = (some e, w)
  parsed (ok o) w =
      let configured = loaded o (load decode (read_file w) o.config_path) w in
      if o.version then (none, print version_line w) else configured

  -- `run`
  unfoldable pub run : List Text → World → Option Error × World
  run args w = parsed (parse_flags args) w

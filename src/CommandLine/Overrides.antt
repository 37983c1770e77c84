-- ===== src/CommandLine/Overrides.antt =====
-- main.go: what `applyTo` makes of a configuration.
use cloud_route_manager.Base.{
  ◌≡◌, refl, ap, ◌∙◌, List, [], ◌∷◌, arith, contains, if◌then◌else◌, Bool, true, false,
}
use cloud_route_manager.Time.{nanoseconds}
use cloud_route_manager.Config.{Config, General}
use cloud_route_manager.CommandLine.{
  Flag, flag_eq, Options, apply_flag, visit, if_once, apply_to, interval_flag, log_severity_flag,
  log_file_flag, log_format_flag, dry_run_flag, cloud_flag, interface_flag, ip_address_flag,
  timeout_flag, action_timeout_flag, remove_stale_local_routes_flag,
}

-- Each setting on its own: the flag's value if the flag was given.
abbrev pub overridden : Options → List Flag → General → General
overridden o fs g = record {
  interval = if contains fs interval_flag then o.interval else g.interval;
  log_severity = if contains fs log_severity_flag then o.log_severity else g.log_severity;
  log_file = if contains fs log_file_flag then o.log_file else g.log_file;
  log_format = if contains fs log_format_flag then o.log_format else g.log_format;
  dry_run = if contains fs dry_run_flag then o.dry_run else g.dry_run;
  cloud = if contains fs cloud_flag then o.cloud else g.cloud;
  interface = if contains fs interface_flag then o.iface else g.interface;
  ip_address = if contains fs ip_address_flag then o.ip_address else g.ip_address;
  timeout = if contains fs timeout_flag then o.timeout else g.timeout;
  action_timeout = if contains fs action_timeout_flag then o.action_timeout else g.action_timeout;
  remove_stale_local_routes =
      if contains fs remove_stale_local_routes_flag
      then o.remove_stale_local_routes
      else g.remove_stale_local_routes;
}

overridden-cons :
    (o : Options) (f : Flag) (fs : List Flag) (g : General)
    → overridden o fs (apply_flag o f g) ≡ overridden o (f ∷ fs) g
unfolding apply_flag flag_eq
overridden-cons o f fs g = ground arith

visit-overridden : (o : Options) (fs : List Flag) (g : General) → visit o fs g ≡ overridden o fs g
unfolding visit
visit-overridden o [] g = refl
visit-overridden o (f ∷ fs) g = visit-overridden o fs (apply_flag o f g) ∙ overridden-cons o f fs g

-- With `-once`, the interval is zero whatever was given for it.
abbrev pub overridden_once : Options → General → General
overridden_once o g = record (overridden o o.given g) {
  interval = if o.once then nanoseconds 0 else (overridden o o.given g).interval;
}

if_once-overridden :
    (b : Bool) (g : General)
    → if_once b g ≡ record g { interval = if b then nanoseconds 0 else g.interval }
if_once-overridden true g = refl
if_once-overridden false g = refl

-- `applyTo` sets each setting whose flag was given, in whatever order and however often, and no other,
-- except that with `-once` the interval is zero, whether its flag was given or not.
pub apply_to-overridden :
    (o : Options) (c : Config) → apply_to o c ≡ record c { general = overridden_once o c.general }
unfolding apply_to
apply_to-overridden o c =
    ap (λ g. record c { general = if_once o.once g }) (visit-overridden o o.given c.general)
    ∙ ap (λ g. record c { general = g })
        (if_once-overridden o.once (overridden o o.given c.general))

-- ===== src/Tests/Commands.antt =====
-- The theorems on the actions, the command line and the primary interface at examples.
use cloud_route_manager.Base.{
  ◌≡◌, refl, ℕ, ◌+◌, text_eq, codes, true, false, [], ◌∷◌, ◌++◌, none, some, errorf, ok,
}
use cloud_route_manager.Base.Strings.{trim_space, trim_left, trim_right}
use cloud_route_manager.Netip.{v4, unmap, addr_eq}
use cloud_route_manager.Time.{nanoseconds}
use cloud_route_manager.Actions.{Vars, Shell, Runner, expand, run}
use cloud_route_manager.Actions.Placeholders.{placeholder, expand-braced, expand-digit}
use cloud_route_manager.NetInfo.{
  Primary, ip_net, Interface, Kernel, addr_from_slice, from_bytes, entry_addr, owns, find_owner,
  interface_for, outbound_addr, detect,
}
use cloud_route_manager.NetInfo.Chosen.{IsChosen, detect-IsChosen}
use cloud_route_manager.Config.{Config, defaults}
use cloud_route_manager.CommandLine.{
  Options, interval_flag, dry_run_flag, apply_to, Program, run as run_program,
}
use cloud_route_manager.CommandLine.Overrides.{overridden_once, apply_to-overridden}
use cloud_route_manager.CommandLine.Started.{EndsAs, run-EndsAs}
use cloud_route_manager.Tests.Config.{example}

abbrev vars : Vars
vars = record {
  routes = codes "10.0.0.0/8" ∷ [];
  ip_address = codes "10.0.0.1";
  interface = codes "eth0";
  cloud = codes "aws";
}

expand-braced_example :
    expand (codes "x " ++ (codes "${" ++ (codes "cloud" ++ (codes "}" ++ codes " y")))) vars
    ≡ codes "x " ++ (placeholder vars (codes "cloud") ++ expand (codes " y") vars)
expand-braced_example =
    expand-braced (codes "x ") (codes "cloud") (codes " y") vars (refl, (refl, tt))
      (refl, (refl, (refl, (refl, (refl, (refl, tt))))))

expand-digit_example :
    expand (codes "awk '{print " ++ (b'$' ∷ b'1' ∷ codes "}'")) vars
    ≡ codes "awk '{print " ++ (codes "${" ++ (b'1' ∷ (codes "}" ++ expand (codes "}'") vars)))
expand-digit_example =
    expand-digit (codes "awk '{print ") (codes "}'") b'1' vars
      (
        refl,
        (refl, (refl, (refl, (refl, (refl, (refl, (refl, (refl, (refl, (refl, (refl, tt))))))))))),
      )
      refl

-- A shell in which every command fails; the world counts the commands.
abbrev failing : Shell
failing = record {
  World = ℕ;
  now = λ w. w;
  environ = [];
  exec = λ ctx shell command env w. (some (errorf "exit status 1" []), w + 1);
}

abbrev runner : Runner
runner = record { timeout = nanoseconds 0; shell = [] }

abbrev eth0 : Interface
eth0 = record {
  name = codes "eth0";
  mac = codes "02:00";
  addrs = ok (ip_net (10 ∷ 0 ∷ 0 ∷ 1 ∷ []) ∷ []);
}

abbrev kernel : Kernel
kernel = record {
  interface_by_name = λ name. ok eth0;
  interfaces = ok (eth0 ∷ []);
  dial = ok (some (10 ∷ 0 ∷ 0 ∷ 1 ∷ []));
}

abbrev primary : Primary
primary = record { interface = codes "eth0"; ip = v4 0x0a000001; mac = codes "02:00" }

detected : detect kernel (codes " ") [] ≡ (primary, none)
unfolding detect outbound_addr interface_for find_owner owns entry_addr addr_from_slice from_bytes
    unmap trim_space trim_left trim_right addr_eq
detected = refl

detect-IsChosen_example : IsChosen kernel (trim_space (codes " ")) (trim_space []) primary
detect-IsChosen_example = detect-IsChosen kernel (codes " ") [] primary detected

abbrev options : Options
options = record {
  given = dry_run_flag ∷ interval_flag ∷ [];
  config_path = codes "config.yml";
  once = false;
  check_config = false;
  version = false;
  interval = nanoseconds 60;
  log_severity = [];
  log_file = [];
  log_format = [];
  dry_run = true;
  cloud = [];
  iface = [];
  ip_address = [];
  timeout = nanoseconds 0;
  action_timeout = nanoseconds 0;
  remove_stale_local_routes = false;
}

abbrev options_once : Options
options_once = record options { once = true }

apply_to-overridden_example :
    apply_to options_once defaults
    ≡ record defaults { general = overridden_once options_once defaults.general }
apply_to-overridden_example = apply_to-overridden options_once defaults

-- A program whose service counts that it has run.
abbrev program : Program
program = record {
  World = ℕ;
  App = Config;
  version = codes "1.0";
  commit = codes "none";
  date = codes "unknown";
  parse_flags = λ args. ok options;
  read_file = λ w path. ok [];
  decode = λ text c. ok example;
  open_file = λ w path. none;
  print = λ line w. w;
  new_app = λ c w. (ok c, w);
  run_app = λ c w. (none, w + 1);
  is_canceled = λ e. false;
}

run-EndsAs_example :
    EndsAs program (codes "-dry-run" ∷ []) 0 (run_program program (codes "-dry-run" ∷ []) 0)
run-EndsAs_example = run-EndsAs program (codes "-dry-run" ∷ []) 0

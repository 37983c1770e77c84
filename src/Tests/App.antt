-- ===== src/Tests/App.antt =====
-- The theorems on the cycle at examples: a machine that counts the runs of its actions.
use cloud_route_manager.Base.{
  ◌≡◌, refl, Text, codes, true, false, List, [], ◌∷◌, ◌++◌, none, ok, Result,
}
use cloud_route_manager.Cloud.{aws}
use cloud_route_manager.Config.{Config, defaults}
use cloud_route_manager.LocalRoutes.Specs.{parse_specs}
use cloud_route_manager.Source.{Source, build, others}
use cloud_route_manager.App.{
  Machine, App, Outcome, returns, panics, Cycle, new_app, run_once, nil_interface,
}
use cloud_route_manager.App.Running.{start, Returns, Returns-run_once, run_once_panics}
use cloud_route_manager.Base.{◌||◌}
use cloud_route_manager.Loop.{
  Loop, Step, watching, request, tick, ticks, refresh, requests, refreshes, trigger,
}
use cloud_route_manager.Loop.Requests.{Steps, stays, goes, some_refresh, Steps-served}
use cloud_route_manager.Tests.Data.{router}
use cloud_route_manager.Tests.Source.{clients, file_only}

abbrev machine : Machine Text
machine = record {
  provider = aws;
  cloud_sync = λ tables routes hop dry w. (([], none), w);
  local_sync = λ specs stale dry w. (([], none), w);
  detect =
      λ interface ip w. ((record { interface = codes "eth0"; ip = router; mac = [] }, none), w);
  run_actions = λ kind commands vars w. (none, kind ++ w);
}

abbrev plain : Config
plain = record defaults { source = file_only; route_table_ids = codes "rtb-1" ∷ [] }

abbrev cleaning : Config
cleaning = record plain {
  general = record plain.general { remove_stale_local_routes = true; dry_run = true };
}

-- The service that is made of a configuration.
abbrev made : Result (App Text) → List (Source Text) → Config → App Text
made (ok a) sources cfg = a
made _ sources cfg = record {
  cfg = cfg;
  sources = sources;
  local = nil_interface;
  local_specs = [];
  first_cycle = true;
}

abbrev service : Config → App Text
service cfg = made (new_app Text clients cfg) [] cfg

made_plain : new_app Text clients plain ≡ ok (service plain)
unfolding new_app build others parse_specs
made_plain = refl

made_cleaning : new_app Text clients cleaning ≡ ok (service cleaning)
unfolding new_app build others parse_specs
made_cleaning = refl

Returns-run_once_example : Returns Text machine (run_once Text machine (service cleaning) [])
Returns-run_once_example =
    Returns-run_once Text machine clients cleaning (service cleaning) (service cleaning) [] []
      made_cleaning refl start

run_once_panics_example : run_once Text machine (service plain) [] ≡ panics
run_once_panics_example =
    run_once_panics Text machine clients plain (service plain) (service plain) [] [] made_plain refl
      start refl

-- The cycle that is returned, or one without anything.
abbrev result_of : Outcome (Cycle × Text) → Cycle
result_of (returns (c, w)) = c
result_of panics = record {
  changed = true;
  prefixes = [];
  primary = record { interface = []; ip = router; mac = [] };
  error = none;
}

abbrev file_text : Text
file_text = codes "10.0.0.0/8"

abbrev world_of : Outcome (Cycle × Text) → Text
world_of (returns (c, w)) = w
world_of panics = []

-- A loop that is asked for a cycle and makes it.
first_run : Returns Text machine (run_once Text machine (service cleaning) [])
first_run =
    Returns-run_once Text machine clients cleaning (service cleaning) (service cleaning) [] []
      made_cleaning refl start

abbrev idle : Loop Text
idle = record { app = service cleaning; world = []; pending = false; ticked = false }

abbrev asked : Loop Text
asked = record { app = service cleaning; world = []; pending = true; ticked = false }

abbrev refreshed : Loop Text
refreshed = record { app = first_run.0.1; world = first_run.0.2; pending = false; ticked = false }

served : Steps Text machine asked (refresh ∷ []) refreshed
served = goes (refreshes refl first_run.1) stays

asking : Step Text machine idle request (watching asked)
unfolding trigger
asking = requests

-- A tick, a request and the cycle for it.
path : Steps Text machine idle (tick ∷ request ∷ refresh ∷ []) refreshed
unfolding trigger
path = goes ticks (goes requests (goes (refreshes refl first_run.1) stays))

Steps-served_example : (some_refresh (refresh ∷ []) || false) ≡ true
Steps-served_example = Steps-served Text machine idle refreshed (tick ∷ []) (refresh ∷ []) path

-- ===== src/Tests/Delivery.antt =====
-- A cycle on AWS, with a static source and a table whose office route goes elsewhere.
use mathlib.Core.Bool.{xor}
use cloud_route_manager.Base.{
  ◌≡◌, refl, Text, text_eq, codes, true, false, [], ◌∷◌, none, some, ok, err, errorf, contains,
}
use cloud_route_manager.Base.Maps.{lookup, insert}
use cloud_route_manager.Base.Sorting.{sort_by, insert_by}
use cloud_route_manager.Netip.{
  prefix_from, unmap, parse_addr, prefix_eq, prefix_string, masked, parse_prefix, compare_addr,
}
use cloud_route_manager.Cloud.{aws, applied}
use cloud_route_manager.Config.{Config, defaults}
use cloud_route_manager.Config
use cloud_route_manager.Routes.{
  parse, parse_lines, parse_tokens, line_tokens, step, parse_one, add, add_all, sorted, less,
}
use cloud_route_manager.Aws.{
  sync, sync_to, network_interface_id, eni_from_metadata, metadata, sync_tables, sync_table,
  sync_described, sync_routes, note, sync_route, attempt, index, route_prefix, route_input,
  file_route,
}
use cloud_route_manager.Aws.Service.{GoesTo}
use cloud_route_manager.Source.{
  Clients, failed, build, others, new_static, static_of, static_source, collect, collect_all,
  gather,
}
use cloud_route_manager.NetInfo.{Primary}
use cloud_route_manager.App.{
  Machine, App, Cycle, returns, manager, new_app, new_local, cycle, sync_local, sync_cloud,
  sync_collected, log_changes,
}
use cloud_route_manager.App.Delivery.{with_aws}
use cloud_route_manager.App.Made.{cycle_made-GoesTo}
use cloud_route_manager.App.Running.{start}
use cloud_route_manager.LocalRoutes.Specs.{parse_specs}
use cloud_route_manager.Base.Strings.{
  join_texts, split, fields_func, fields_loop, before, trim_space, trim_suffix, has_char,
  has_prefix,
}
use cloud_route_manager.Tests.Data.{office, both, router}
use cloud_route_manager.Tests.Ec2.{Account, account, account-IsFaithful, routes_of, stored, held}

abbrev pub main : Text
main = codes "rtb-1"

abbrev eni : Text
eni = codes "eni-1"

abbrev pub primary : Primary
primary = record { interface = codes "eth0"; ip = router; mac = [] }

abbrev machine : Machine (Text × Account)
machine = record {
  provider = aws;
  cloud_sync = λ tables routes hop dry w. (([], none), w);
  local_sync = λ specs stale dry w. (([], none), w);
  detect = λ interface ip w. ((primary, none), w);
  run_actions = λ kind commands vars w. (none, w);
}

-- The clients are not called.
abbrev pub unasked : (World : Type 0) → Clients World
unasked World = record {
  read_file = λ path w. (failed (errorf "no file" []), w);
  s3_client = λ cfg w. (some (errorf "load aws config" []), w);
  get_object = λ bucket key w. (err (errorf "no object" []), w);
  ssm_client = λ cfg w. (some (errorf "load aws config" []), w);
  get_parameter = λ path w. (ok none, w);
  attribute = λ key w. (err (errorf "no metadata" []), w);
}

abbrev pub listed : Config.Source
listed = record {
  static = some (record { routes = codes "192.168.5.7/24" ∷ codes "10.0.0.0/8" ∷ [] });
  file = none;
  s3 = none;
  aws_ssm = none;
  yandex_metadata = none;
}

abbrev pub cfg : Config
cfg = record defaults {
  general = record defaults.general { remove_stale_local_routes = true };
  source = listed;
  route_table_ids = main ∷ [];
}

abbrev service : App (Text × Account)
service = record {
  cfg = cfg;
  sources = static_source (Text × Account) both ∷ [];
  local = manager;
  local_specs = [];
  first_cycle = true;
}

abbrev untouched : Account
untouched = (main, stored (route_input main (codes "eni-9") office)) ∷ []

abbrev outcome : Cycle
outcome = record { changed = true; prefixes = both; primary = primary; error = none }

abbrev after : Account
after = (sync account [] (main ∷ []) both router false untouched).2

cycle_run :
    cycle (Text × Account) (with_aws account machine) service ([], untouched)
    ≡ returns (outcome, (eni, after))
unfolding cycle sync_local sync_cloud sync_collected collect collect_all gather static_source
    add_all add sorted sort_by insert_by less xor compare_addr prefix_eq sync sync_to
    network_interface_id eni_from_metadata metadata sync_tables sync_table sync_described
    sync_routes note sync_route attempt lookup text_eq index route_prefix route_input file_route
    routes_of prefix_string parse_prefix insert masked log_changes applied
cycle_run = refl

made : new_app (Text × Account) (unasked (Text × Account)) cfg ≡ ok service
unfolding new_app build others new_static static_of static_source parse_specs new_local join_texts
    parse parse_lines split parse_tokens line_tokens fields_func fields_loop before trim_space
    trim_suffix step parse_one has_char has_prefix parse_prefix masked prefix_from unmap add
    prefix_eq sorted sort_by insert_by less xor compare_addr parse_addr
made = refl

wanted : (contains (main ∷ []) main ≡ true) × (contains both office ≡ true)
unfolding text_eq prefix_eq
wanted = (refl, refl)

cycle_made-GoesTo_example : GoesTo eni (held after main office)
unfolding account-IsFaithful
cycle_made-GoesTo_example =
    cycle_made-GoesTo account account-IsFaithful machine (unasked (Text × Account)) cfg service
      service ([], untouched) ([], untouched) (eni, after) outcome main office made start refl
      cycle_run refl (refl, (refl, tt)) wanted.0 wanted.1

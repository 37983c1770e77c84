-- ===== src/Tests/Store.antt =====
-- A cycle on Yandex Cloud, with a static source and a table that has a row of its own.
use mathlib.Core.Bool.{xor}
use cloud_route_manager.Base.{
  ◌≡◌, refl, ap, subst, Text, text_eq, true, false, List, [], ◌∷◌, ◌==◌, if◌then◌else◌, none, ok,
  contains, arith, ok-injective,
}
use cloud_route_manager.Base.Sorting.{sort_by, insert_by}
use cloud_route_manager.Base.Strings.{
  join_texts, split, fields_func, fields_loop, before, trim_space, trim_suffix, has_char,
  has_prefix,
}
use cloud_route_manager.Netip.{
  prefix_from, unmap, parse_addr, prefix_eq, prefix_string, masked, parse_prefix, compare_addr,
  addr_string,
}
use cloud_route_manager.Cloud.{yandex, applied}
use cloud_route_manager.Routes.{
  parse, parse_lines, parse_tokens, line_tokens, step, parse_one, add, add_all, sorted, less,
}
use cloud_route_manager.LocalRoutes.Specs.{parse_specs}
use cloud_route_manager.Source.{
  build, others, new_static, static_of, static_source, collect, collect_all, gather,
}
use cloud_route_manager.Yandex.{
  Row, RouteTables, sync, sync_tables, sync_table, finish, merge, merge_rows, create_rows,
  create_row, new_row,
}
use cloud_route_manager.Yandex.Stores.{IsStore, SendsTo}
use cloud_route_manager.App.{
  Machine, App, Cycle, returns, manager, new_app, new_local, cycle, sync_local, sync_cloud,
  sync_collected, log_changes,
}
use cloud_route_manager.App.Delivery.{with_yandex}
use cloud_route_manager.App.Made.{cycle_made-SendsTo}
use cloud_route_manager.App.Running.{start}
use cloud_route_manager.Tests.Data.{office, both, router, router_string}
use cloud_route_manager.Tests.Delivery.{main, primary, unasked, cfg}

-- The world is the rows of each table.
abbrev Tables : Type 0
Tables = Text → List Row

abbrev api : RouteTables
api = record {
  World = Tables;
  get_route_table = λ t w. (ok (w t), w);
  update_static_routes = λ t rows w. (none, λ u. if t == u then rows else w u);
}

abbrev Holds : Tables → Text → List Row → Type 0
Holds w t rows = w t ≡ rows

replaced : (t : Text) (rows : List Row) (w : Tables) → (if t == t then rows else w t) ≡ rows
replaced t rows w = elim (text_eq.dec t t) [ yes e ↦ ground arith | no n ↦ absurd (n refl) ]

store : IsStore api Holds
store = record {
  got = λ t rows w w' h. subst (λ v. v t ≡ rows) (ap (λ r. r.1) h) (ok-injective (ap (λ r. r.0) h));
  kept_by_get = λ t u rows w h. h;
  put = λ t rows w w' h. subst (λ v. v t ≡ rows) (ap (λ r. r.1) h) (replaced t rows w);
  kept_by_put = λ t u rows rows' w x h. rw x h;
}

abbrev machine : Machine Tables
machine = record {
  provider = yandex;
  cloud_sync = λ tables routes hop dry w. (([], none), w);
  local_sync = λ specs stale dry w. (([], none), w);
  detect = λ interface ip w. ((primary, none), w);
  run_actions = λ kind commands vars w. (none, w);
}

abbrev service : App Tables
service = record {
  cfg = cfg;
  sources = static_source Tables both ∷ [];
  local = manager;
  local_specs = [];
  first_cycle = true;
}

abbrev empty : Tables
empty = λ t. []

abbrev outcome : Cycle
outcome = record { changed = true; prefixes = both; primary = primary; error = none }

abbrev after : Tables
after = (sync api (main ∷ []) both router false empty).1

cycle_run : cycle Tables (with_yandex api machine) service empty ≡ returns (outcome, after)
unfolding cycle sync_local sync_cloud sync_collected collect collect_all gather static_source
    add_all add sorted sort_by insert_by less xor compare_addr prefix_eq sync sync_tables sync_table
    finish merge merge_rows create_rows create_row new_row log_changes applied prefix_string
    addr_string text_eq
cycle_run = refl

made : new_app Tables (unasked Tables) cfg ≡ ok service
unfolding new_app build others new_static static_of static_source parse_specs new_local join_texts
    parse parse_lines split parse_tokens line_tokens fields_func fields_loop before trim_space
    trim_suffix step parse_one has_char has_prefix parse_prefix masked prefix_from unmap add
    prefix_eq sorted sort_by insert_by less xor compare_addr parse_addr
made = refl

wanted : (contains (main ∷ []) main ≡ true) × (contains both office ≡ true)
unfolding text_eq prefix_eq
wanted = (refl, refl)

cycle_made-SendsTo_example : SendsTo api Holds (addr_string router) after main office
cycle_made-SendsTo_example =
    cycle_made-SendsTo api Holds store machine (unasked Tables) cfg service service empty empty
      after outcome main office made start refl cycle_run refl (refl, (refl, tt)) router_string
      wanted.0 wanted.1

-- ===== src/Tests/LocalRoutes.antt =====
-- The theorems on local routes at examples: a host with two listed routes and no default route.
use cloud_route_manager.Base.{
  ◌≡◌, refl, Text, text_eq, codes, true, false, List, [], ◌∷◌, ◌++◌, ok, err, wrapf, errorf, join,
  contains, if◌then◌else◌,
}
use cloud_route_manager.Base.Maps.{Map, insert}
use cloud_route_manager.Netip.{Prefix, no_addr, prefix_eq, parse_prefix, parse_addr, unmap, masked}
use cloud_route_manager.LocalRoutes.Specs.{
  Spec, parse_spec, parse_specs, spec_string, parse_fields, with_target,
}
use cloud_route_manager.Routes.{parse_one}
use cloud_route_manager.Base.Strings.{fields, equal_fold, trim_space, has_char, to_lower, split}
use cloud_route_manager.LocalRoutes.Listing.{
  Entry, Runner, list, default_gateway, show_ours, parse_listing, parse_line, route_of, behind_via,
  find_gateway, line_gateway,
}
use cloud_route_manager.LocalRoutes.Manager.{sync}
use cloud_route_manager.LocalRoutes.Manager.DryRun.{ShowsOnly, sync-ShowsOnly}
use cloud_route_manager.LocalRoutes.Manager.Stale.{deletions, sync_unresolved}
use cloud_route_manager.Tests.Data.{ten, office, router}

-- ip(8) lists two routes of ours and finds no default route; the world is the log of its arguments.
abbrev host : Runner
host = record {
  World = List (List Text);
  run = λ args log. (
    ok (
        if contains args (codes "proto")
        then codes "blackhole 10.0.0.0/8\n192.168.5.0/24 via 10.0.0.1 dev eth0 proto 201"
        else []),
    log ++ args ∷ [],
  );
}

abbrev ten_spec : Spec
ten_spec = record { prefix = ten; gateway = no_addr; via_default = true; blackhole = false }

read_ten : parse_spec (codes "10.0.0.0/8 via default") ≡ ok ten_spec
unfolding parse_spec parse_fields fields equal_fold parse_one trim_space has_char parse_prefix
    with_target to_lower masked
read_ten = refl

read_both :
    parse_specs (codes "10.0.0.0/8 via default" ∷ codes "10.0.0.0/8 via default" ∷ [])
    ≡ ok (ten_spec ∷ ten_spec ∷ [])
unfolding parse_specs parse_spec parse_fields fields equal_fold parse_one trim_space has_char
    parse_prefix with_target to_lower masked
read_both = refl

abbrev listed : Map Prefix Entry
listed =
    (ten, record { gateway = no_addr; blackhole = true })
    ∷ (office, record { gateway = router; blackhole = false })
    ∷ []

lists : list host [] ≡ (ok listed, show_ours ∷ [])
unfolding list text_eq split parse_listing parse_line fields equal_fold route_of parse_one
    trim_space has_char parse_prefix masked behind_via parse_addr insert prefix_eq to_lower unmap
lists = refl

sync-ShowsOnly_example : ShowsOnly host [] (sync host (ten_spec ∷ []) true true []).1
sync-ShowsOnly_example = sync-ShowsOnly host (ten_spec ∷ []) true []

no_default : default_gateway host (show_ours ∷ []) ≡ (
  err (errorf "no default route with a gateway to resolve \"via default\"" []),
  (default_gateway host (show_ours ∷ [])).1,
)
unfolding default_gateway text_eq split find_gateway line_gateway fields
no_default = refl

sync_unresolved_example : sync host (ten_spec ∷ []) true true [] ≡ (
  (
    deletions [] listed,
    join (
        wrapf "%s: %w"
          (spec_string ten_spec ∷ [])
          (errorf "no default route with a gateway to resolve \"via default\"" [])
        ∷ []),
  ),
  (default_gateway host (show_ours ∷ [])).1,
)
sync_unresolved_example =
    sync_unresolved host ten_spec [] (show_ours ∷ []) (default_gateway host (show_ours ∷ [])).1
      listed (errorf "no default route with a gateway to resolve \"via default\"" []) refl lists
      no_default

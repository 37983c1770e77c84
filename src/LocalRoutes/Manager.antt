-- ===== src/LocalRoutes/Manager.antt =====
-- internal/localroutes/localroutes.go: `Sync`, over the runner of ip(8). Logging is left out, and the
-- map of listed routes is gone through in the order of its list, where Go leaves the order open.
pub mod DryRun
pub mod Stale
use cloud_route_manager.Base.{
  Text, text_eq, codes, Bool, true, false, not, ◌&&◌, ◌||◌, List, [], ◌∷◌, ◌++◌, ◌==◌,
  if◌then◌else◌, Option, none, some, Error, wrapf, Result, ok, err, contains, join,
}
use cloud_route_manager.Base.Maps.{Map, lookup}
use cloud_route_manager.Netip.{
  Addr, no_addr, is_valid, Prefix, prefix_eq, prefix_string, addr_string,
}
use cloud_route_manager.Cloud.{Change, Report, create, replace, noop, delete}
use cloud_route_manager.LocalRoutes.Specs.{Spec, spec_string, target_blackhole}
use cloud_route_manager.LocalRoutes.Listing.{
  Entry, entry_eq, next_hop, Runner, list, default_gateway, proto_arg,
}

-- `Table`
abbrev pub local_table : Text
local_table = codes "local"

-- `replaceArgs`
unfoldable pub replace_args : Prefix → Entry → List Text
replace_args p want =
    if want.blackhole
    then codes "route"
      ∷ codes "replace"
      ∷ target_blackhole
      ∷ prefix_string p
      ∷ codes "proto"
      ∷ proto_arg
      ∷ []
    else codes "route"
      ∷ codes "replace"
      ∷ prefix_string p
      ∷ codes "via"
      ∷ addr_string want.gateway
      ∷ codes "proto"
      ∷ proto_arg
      ∷ []

unfoldable pub delete_args : Prefix → List Text
delete_args p = codes "route" ∷ codes "del" ∷ prefix_string p ∷ codes "proto" ∷ proto_arg ∷ []

-- The variables of `Sync`; `desired` lists the keys of the map, and `gateway` is the default gateway
-- once it is known.
pub record State : Type 0 where
  pub changes : List Change
  pub errs : List Error
  pub desired : List Prefix
  pub gateway : Addr

abbrev pub start : State
start = record { changes = []; errs = []; desired = []; gateway = no_addr }

-- The change that the loop reports for an entry that is wanted.
abbrev pub change_of : Prefix → Entry → Option Entry → Change
change_of p want none = record {
  table = local_table;
  prefix = prefix_string p;
  action = create;
  prev_next_hop = [];
}
change_of p want (some cur) =
    if cur == want
    then record { table = local_table; prefix = prefix_string p; action = noop; prev_next_hop = [] }
    else record {
      table = local_table;
      prefix = prefix_string p;
      action = replace;
      prev_next_hop = next_hop cur;
    }

-- `found && cur == want`
abbrev pub is_current : Entry → Option Entry → Bool
is_current want none = false
is_current want (some cur) = cur == want

abbrev pub delete_change : Prefix → Entry → Change
delete_change p cur = record {
  table = local_table;
  prefix = prefix_string p;
  action = delete;
  prev_next_hop = next_hop cur;
}

unfoldable pub note : State → Result Change → State
note st (ok c) = record st { changes = st.changes ++ (c ∷ []) }
note st (err e) = record st { errs = st.errs ++ (e ∷ []) }

abbrev pub after_run : Change → Result Text → Result Change
after_run c (ok out) = ok c
after_run c (err e) = err e

module _ (ip : Runner) where
  open ip use {World, run}

  -- Runs ip(8) for a change, unless this is a dry run.
  unfoldable pub perform : Bool → Change → List Text → World → Result Change × World
  perform dry c args w = let (r, w') = run args w in if dry then (ok c, w) else (after_run c r, w')

  -- The gateway that a spec wants, and the default gateway as it is known then.
  abbrev resolved : Spec → Result Addr × World → Result Addr × Addr × World
  resolved spec (ok a, w) = (ok a, a, w)
  resolved spec (err e, w) = (err (wrapf "%s: %w" (spec_string spec ∷ []) e), no_addr, w)

  unfoldable pub resolve : Spec → Addr → World → Result Addr × Addr × World
  resolve spec gateway w =
      if not spec.via_default
      then (ok spec.gateway, gateway, w)
      else if is_valid gateway
      then (ok gateway, gateway, w)
      else resolved spec (default_gateway ip w)

  -- The body of the loop behind the resolution: the prefix is desired, and its entry is installed
  -- unless it is there.
  unfoldable pub install : Bool → Map Prefix Entry → Prefix → Entry → World → Result Change × World
  install dry current p want w =
      if is_current want (lookup p current)
      then (ok (change_of p want (lookup p current)), w)
      else perform dry (change_of p want (lookup p current)) (replace_args p want) w

  unfoldable pub sync_resolved :
      Bool → Map Prefix Entry → Spec → Result Addr × Addr × World → State → State × World
  sync_resolved dry current spec (err e, gateway, w) st =
      (note (record st { gateway = gateway }) (err e), w)
  sync_resolved dry current spec (ok a, gateway, w) st =
      let (r, w') =
        install dry current spec.prefix (record { gateway = a; blackhole = spec.blackhole }) w in
      (note (record st { gateway = gateway; desired = spec.prefix ∷ st.desired }) r, w')

  -- The loop over the specs.
  unfoldable pub sync_specs : Bool → Map Prefix Entry → List Spec → State → World → State × World
  sync_specs dry current [] st w = (st, w)
  sync_specs dry current (spec ∷ specs) st w =
      let (st', w') = sync_resolved dry current spec (resolve spec st.gateway w) st in
      sync_specs dry current specs st' w'

  -- The loop over the listed routes.
  unfoldable pub remove_stale : Bool → Map Prefix Entry → State → World → State × World
  remove_stale dry [] st w = (st, w)
  remove_stale dry ((p, cur) ∷ current) st w =
      let (r, w') = perform dry (delete_change p cur) (delete_args p) w in
      let skipped = remove_stale dry current st w in
      let deleted = remove_stale dry current (note st r) w' in
      if contains st.desired p then skipped else deleted

  abbrev pub report : State × World → Report × World
  report (st, w) = ((st.changes, join st.errs), w)

  unfoldable pub sync_listed :
      List Spec → Bool → Bool → Result (Map Prefix Entry) × World → Report × World
  sync_listed specs stale dry (err e, w) = (([], some e), w)
  sync_listed specs stale dry (ok current, w) =
      let (st, w') = sync_specs dry current specs start w in
      report (if stale then remove_stale dry current st w' else (st, w'))

  -- `Sync`
  unfoldable pub sync : List Spec → Bool → Bool → World → Report × World
  sync specs stale dry w = sync_listed specs stale dry (list ip w)

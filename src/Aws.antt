-- ===== src/Aws.antt =====
-- internal/cloud/aws/aws.go: the manager of AWS VPC route tables. The EC2 client and the metadata
-- client are the parameter `Ec2`: each call takes the world and gives a result and the next world.
-- Logging and the mutex around the cached interface are left out.
mod Entry
pub mod Planning
pub mod Service
pub mod Effects
pub mod Runs
pub mod Twice
pub mod Tables
unfoldable pub use Entry.*
use mathlib.Core.Option
use Prim.Native.String.{String}
use cloud_route_manager.Base.{
  ℕ, Text, text_eq, codes, Bool, true, false, not, ◌&&◌, List, [], ◌∷◌, ◌++◌, ◌==◌, if◌then◌else◌,
  is_empty, Option, none, some, Error, errorf, wrapf, join, to_list, Result, ok, err, contains,
  ◌>>=◌, wrap_err, ◌||◌,
}
use cloud_route_manager.Base.Strings.{fields, trim_suffix, trim_space}
use cloud_route_manager.Base.Maps.{Map, lookup, insert}
use cloud_route_manager.Netip.{
  Addr, is4, Prefix, prefix_eq, masked, parse_prefix, prefix_string, addr_string,
}
use cloud_route_manager.Cloud.{Change, Report, create, replace, noop}

-- `EC2API`, and the metadata client. A description lists the routes of each table that was found;
-- an interface is given by its id. `get_metadata` is what reading the limited body returns.
pub record Ec2 : Type 1 where
  pub World : Type 0
  pub describe_route_tables : Text → World → Result (List (List Route)) × World
  pub describe_network_interfaces : Text → World → Result (List (Option Text)) × World
  pub create_route : RouteInput → World → Result (Unit {0}) × World
  pub replace_route : RouteInput → World → Result (Unit {0}) × World
  pub get_metadata : Text → World → Result Text × World

-- The changes and the errors that a loop has gathered.
pub record Progress : Type 0 where
  pub changes : List Change
  pub errs : List Error

abbrev pub start : Progress
start = record { changes = []; errs = [] }

unfoldable pub note : Progress → Result Change → Progress
note st (ok c) = record st { changes = st.changes ++ (c ∷ []) }
note st (err e) = record st { errs = st.errs ++ (e ∷ []) }

abbrev pub done {ℓ} : {A : Type ℓ} → A → Result (Unit {0}) → Result A
done a (ok u) = ok a
done a (err e) = err e

-- What `Sync` keeps of one table.
abbrev pub add_table : Text → Progress → Report → Progress
add_table table st r = record {
  changes = st.changes ++ r.0;
  errs = st.errs ++ to_list (Option.map (wrapf "route table %s: %w" (table ∷ [])) r.1);
}

module _ (api : Ec2) where
  open api use {
    World, describe_route_tables, describe_network_interfaces, create_route, replace_route,
    get_metadata,
  }

  -- One call that changes a route: its change if it succeeds, its error if not.
  unfoldable pub attempt :
      String → Text → Change → Result (Unit {0}) × World → Result Change × World
  attempt format p c (r, w) = (done c (wrap_err format (p ∷ []) r), w)

  -- The body of the loop over `routes`, with the entry of `existing`.
  unfoldable pub sync_route :
      Text → Text → Bool → Prefix → Option Route → World → Result Change × World
  sync_route table eni dry p none w =
      if dry
      then (ok (change table p none eni), w)
      else attempt "create %s: %w" (prefix_string p) (change table p none eni)
          (create_route (route_input table eni p) w)
  sync_route table eni dry p (some r) w =
      if targets eni (some r) || dry
      then (ok (change table p (some r) eni), w)
      else attempt "replace %s: %w" (prefix_string p) (change table p (some r) eni)
          (replace_route (route_input table eni p) w)

  unfoldable pub sync_routes :
      Text → Text → Bool → Map Prefix Route → List Prefix → Progress → World → Progress × World
  sync_routes table eni dry existing [] st w = (st, w)
  sync_routes table eni dry existing (p ∷ ps) st w =
      let (r, w') = sync_route table eni dry p (lookup p existing) w in
      sync_routes table eni dry existing ps (note st r) w'

  abbrev pub report : Progress × World → Report × World
  report (st, w) = ((st.changes, join st.errs), w)

  -- `syncTable`, behind its description.
  unfoldable pub sync_described :
      Text → List Prefix → Text → Bool → Result (List (List Route)) × World → Report × World
  sync_described table routes eni dry (err e, w) = (([], some (wrapf "describe: %w" [] e)), w)
  sync_described table routes eni dry (ok [], w) = (([], some (errorf "not found" [])), w)
  sync_described table routes eni dry (ok (rs ∷ rest), w) =
      report (sync_routes table eni dry (index rs []) routes start w)

  unfoldable pub sync_table : Text → List Prefix → Text → Bool → World → Report × World
  sync_table table routes eni dry w =
      sync_described table routes eni dry (describe_route_tables table w)

  -- The loop of `Sync` over the tables.
  unfoldable pub sync_tables :
      List Text → List Prefix → Text → Bool → Progress → World → Progress × World
  sync_tables [] routes eni dry st w = (st, w)
  sync_tables (t ∷ ts) routes eni dry st w =
      let (r, w') = sync_table t routes eni dry w in
      sync_tables ts routes eni dry (add_table t st r) w'

  -- `metadata`
  unfoldable pub metadata : Text → World → Result Text × World
  metadata path w = let (r, w') = get_metadata path w in (r >>= (λ raw. ok (trim_space raw)), w')

  abbrev macs_path : Text
  macs_path = codes "network/interfaces/macs/"

  -- The loop of `eniFromMetadata` over the interfaces; one whose addresses cannot be read is skipped.
  unfoldable pub search_macs : Text → List Text → World → Result Text × World
  search_macs ip [] w =
      (err (errorf "no interface in instance metadata carries address %s" (ip ∷ [])), w)
  search_macs ip (mac ∷ macs) w =
      let name = trim_suffix b'/' mac in
      let (ips, w') = metadata (macs_path ++ (name ++ codes "/local-ipv4s")) w in
      let skip = search_macs ip macs w in
      let next = search_macs ip macs w' in
      if is_empty name then skip else elim ips [
        | err e ↦ next
        | ok list ↦
            if contains (fields list) ip
            then metadata (macs_path ++ (name ++ codes "/interface-id")) w'
            else next
      ]

  -- `eniFromMetadata`
  unfoldable pub eni_from_metadata : Text → World → Result Text × World
  eni_from_metadata ip w =
      let (macs, w') = metadata macs_path w in
      elim macs [ err e ↦ (err e, w') | ok list ↦ search_macs ip (fields list) w' ]

  abbrev first_interface : Text → Result (List (Option Text)) → Result Text
  first_interface ip (err e) = err (wrapf "describe network interfaces for %s: %w" (ip ∷ []) e)
  first_interface ip (ok []) = err (errorf "no network interface carries address %s" (ip ∷ []))
  first_interface ip (ok (id ∷ ids)) = ok (to_string id)

  -- `networkInterfaceID`. The first text is the cached `m.eni`; it is returned as it is left.
  unfoldable pub network_interface_id : Text → Addr → World → Result Text × Text × World
  network_interface_id cached ip w =
      if not (is_empty cached)
      then (ok cached, cached, w)
      else let (found, w') = eni_from_metadata (addr_string ip) w in
        elim found [
          | ok eni ↦ (ok eni, eni, w')
          | err e ↦
              let (out, w'') = describe_network_interfaces (addr_string ip) w' in
              elim (first_interface (addr_string ip) out) [
                | ok eni ↦ (ok eni, eni, w'')
                | err e' ↦ (err e', cached, w'')
              ]
        ]

  -- `Sync`, behind the resolution of the interface.
  unfoldable pub sync_to :
      List Text → List Prefix → Bool → Result Text × Text × World → Report × Text × World
  sync_to tables routes dry (err e, cached, w) = (([], some e), cached, w)
  sync_to tables routes dry (ok eni, cached, w) =
      let (r, w') = report (sync_tables tables routes eni dry start w) in (r, cached, w')

  -- `Sync`, with the cached interface before and after.
  unfoldable pub sync : Text → List Text → List Prefix → Addr → Bool → World → Report × Text × World
  sync cached tables routes next_hop dry w =
      sync_to tables routes dry (network_interface_id cached next_hop w)

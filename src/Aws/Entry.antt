-- ===== src/Aws/Entry.antt =====
-- internal/cloud/aws/aws.go: the routes of a table as `syncTable` files and compares them, and the
-- changes and requests it makes of them.
use mathlib.Core.Option
use cloud_route_manager.Base.{
  Text, text_eq, codes, Bool, false, not, ◌&&◌, List, [], ◌∷◌, ◌==◌, if◌then◌else◌, is_empty,
  Option, none, some,
}
use cloud_route_manager.Base.Maps.{Map, insert}
use cloud_route_manager.Netip.{is4, Prefix, prefix_eq, masked, parse_prefix, prefix_string}
use cloud_route_manager.Cloud.{Change, create, replace, noop}

-- `ec2types.Route`, the fields that the manager reads.
pub record Route : Type 0 where
  pub destination_cidr_block : Option Text
  pub destination_ipv6_cidr_block : Option Text
  pub network_interface_id : Option Text
  pub gateway_id : Option Text
  pub nat_gateway_id : Option Text
  pub transit_gateway_id : Option Text
  pub instance_id : Option Text
  pub vpc_peering_connection_id : Option Text
  pub egress_only_internet_gateway_id : Option Text
  pub local_gateway_id : Option Text
  pub carrier_gateway_id : Option Text
  pub core_network_arn : Option Text
  pub state : Text

-- `ec2.CreateRouteInput` and `ec2.ReplaceRouteInput`, which the manager fills alike.
pub record RouteInput : Type 0 where
  pub route_table_id : Text
  pub network_interface_id : Text
  pub destination_cidr_block : Option Text
  pub destination_ipv6_cidr_block : Option Text

-- `awssdk.ToString`
abbrev pub to_string : Option Text → Text
to_string none = []
to_string (some s) = s

abbrev pub active : Text
active = codes "active"

-- The prefix under which `syncTable` files a route of the table, if it has one.
unfoldable pub route_prefix : Route → Option Prefix
route_prefix r =
    let cidr = to_string r.destination_cidr_block in
    let cidr' = if is_empty cidr then to_string r.destination_ipv6_cidr_block else cidr in
    if is_empty cidr' then none else Option.map masked (parse_prefix cidr')

-- The map `existing` of `syncTable`; a later route of one prefix replaces an earlier one.
unfoldable pub file_route : Option Prefix → Route → Map Prefix Route → Map Prefix Route
file_route none r m = m
file_route (some p) r m = insert p r m

unfoldable pub index : List Route → Map Prefix Route → Map Prefix Route
index [] m = m
index (r ∷ rs) m = index rs (file_route (route_prefix r) r m)

-- `routeTarget`
abbrev pub first_set : List (Option Text) → Text → Text
first_set [] other = other
first_set (v ∷ vs) other = if is_empty (to_string v) then first_set vs other else to_string v

unfoldable pub route_target : Route → Text
route_target r =
    first_set
      (r.network_interface_id ∷ r.gateway_id ∷ r.nat_gateway_id ∷ r.transit_gateway_id
        ∷ r.instance_id ∷ r.vpc_peering_connection_id ∷ r.egress_only_internet_gateway_id
        ∷ r.local_gateway_id ∷ r.carrier_gateway_id ∷ r.core_network_arn ∷ [])
      (if r.state == codes "blackhole" then codes "blackhole" else codes "unknown")

-- `destination`, with the two tests that the calls pass to it.
abbrev pub destination : Prefix → (Prefix → Bool) → Option Text
destination p match = if match p then some (prefix_string p) else none

unfoldable pub route_input : Text → Text → Prefix → RouteInput
route_input table eni p = record {
  route_table_id = table;
  network_interface_id = eni;
  destination_cidr_block = destination p (λ p. is4 p.addr);
  destination_ipv6_cidr_block = destination p (λ p. not (is4 p.addr));
}

-- The route is there, goes to the interface and is active.
abbrev pub targets : Text → Option Route → Bool
targets eni none = false
targets eni (some r) = to_string r.network_interface_id == eni && r.state == active

abbrev pub change : Text → Prefix → Option Route → Text → Change
change table p none eni = record {
  table = table;
  prefix = prefix_string p;
  action = create;
  prev_next_hop = [];
}
change table p (some r) eni =
    if targets eni (some r)
    then record { table = table; prefix = prefix_string p; action = noop; prev_next_hop = [] }
    else record {
      table = table;
      prefix = prefix_string p;
      action = replace;
      prev_next_hop = route_target r;
    }

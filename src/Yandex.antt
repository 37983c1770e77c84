-- ===== src/Yandex.antt =====
-- internal/cloud/yandex/routes.go: the manager of Yandex Cloud route tables. The two calls of the VPC
-- service are the parameter `RouteTables`. Logging is left out.
pub mod Values
pub mod Rows
pub mod Merging
pub mod Kept
pub mod Twice
pub mod Calls
pub mod Stores
pub mod Client
use Prim.Native.String.{String}
use mathlib.Core.Option
use cloud_route_manager.Base.{
  Text, text_eq, codes, Bool, true, false, not, ◌&&◌, ◌||◌, List, [], ◌∷◌, ◌++◌, ◌==◌,
  if◌then◌else◌, is_empty, Option, none, some, Error, wrapf, join, to_list, Result, ok, err,
  contains,
}
use cloud_route_manager.Base.Strings.{trim_space}
use cloud_route_manager.Base.Maps.{Map, lookup, insert, erase}
use cloud_route_manager.Netip.{
  Addr, Prefix, prefix_eq, masked, parse_prefix, prefix_string, addr_string,
}
use cloud_route_manager.Cloud.{Change, Report, create, replace, noop}
use cloud_route_manager.Yandex.Values.{Json, str}

-- A static route, kept as a raw map.
abbrev pub Row : Type 0
Row = Map Text Json

-- `getRouteTable`, for the rows of the table, and `updateStaticRoutes`.
pub record RouteTables : Type 1 where
  pub World : Type 0
  pub get_route_table : Text → World → Result (List Row) × World
  pub update_static_routes : Text → List Row → World → Option Error × World

abbrev pub next_hop_key : Text
next_hop_key = codes "nextHopAddress"

abbrev pub gateway_key : Text
gateway_key = codes "gatewayId"

abbrev pub destination_key : Text
destination_key = codes "destinationPrefix"

-- `s, ok := v.(string); ok && s != ""`
abbrev pub string_value : Option Json → Option Text
string_value (some (str (c ∷ s))) = some (c ∷ s)
string_value _ = none

abbrev or_gateway : Option Text → Option Text → Text
or_gateway (some v) w = v
or_gateway none (some w) = w
or_gateway none none = []

-- `previousNextHop`
unfoldable pub previous_next_hop : Row → Text
previous_next_hop row =
    or_gateway (string_value (lookup next_hop_key row)) (string_value (lookup gateway_key row))

-- `parsePrefixField`, for a field that is a text and not empty.
abbrev pub parse_field : Option Text → Option Prefix
parse_field none = none
parse_field (some s) = Option.map masked (parse_prefix (trim_space s))

-- `parsePrefixField(existing["destinationPrefix"])`
unfoldable pub row_prefix : Row → Option Prefix
row_prefix row = parse_field (string_value (lookup destination_key row))

-- The row as it is sent back: the gateway goes, and the next hop is set.
unfoldable pub take_over : Text → Row → Row
take_over next_hop row = insert next_hop_key (str next_hop) (erase gateway_key row)

unfoldable pub new_row : Text → Prefix → Row
new_row next_hop p = (destination_key, str (prefix_string p)) ∷ (next_hop_key, str next_hop) ∷ []

-- The variables of `syncTable`; `seen` lists the keys of the map.
pub record Merge : Type 0 where
  pub changes : List Change
  pub seen : List Prefix
  pub desired : List Row
  pub mutated : Bool

abbrev pub start : Merge
start = record { changes = []; seen = []; desired = []; mutated = false }

module _ (table : Text) (routes : List Prefix) (next_hop : Text) where
  -- A row that is not ours, or repeats a prefix: kept verbatim.
  unfoldable pub keep : Row → Merge → Merge
  keep row st = record st { desired = st.desired ++ (row ∷ []) }

  -- The row of a wanted prefix.
  unfoldable pub claim : Prefix → Row → Merge → Merge
  claim p row st =
      if previous_next_hop row == next_hop
      then record st {
        changes =
            st.changes
            ++ (record {
              table = table;
              prefix = prefix_string p;
              action = noop;
              prev_next_hop = [];
            }
                ∷ []);
        seen = p ∷ st.seen;
        desired = st.desired ++ (row ∷ []);
      }
      else record {
        changes =
            st.changes
            ++ (record {
              table = table;
              prefix = prefix_string p;
              action = replace;
              prev_next_hop = previous_next_hop row;
            }
                ∷ []);
        seen = p ∷ st.seen;
        desired = st.desired ++ (take_over next_hop row ∷ []);
        mutated = true;
      }

  -- The body of the loop over the rows of the table.
  unfoldable pub merge_row : Option Prefix → Row → Merge → Merge
  merge_row none row st = keep row st
  merge_row (some p) row st =
      if not (contains routes p) || contains st.seen p then keep row st else claim p row st

  unfoldable pub merge_rows : List Row → Merge → Merge
  merge_rows [] st = st
  merge_rows (row ∷ rows) st = merge_rows rows (merge_row (row_prefix row) row st)

  unfoldable pub create_row : Prefix → Merge → Merge
  create_row p st = record st {
    changes =
        st.changes
        ++ (record { table = table; prefix = prefix_string p; action = create; prev_next_hop = [] }
            ∷ []);
    desired = st.desired ++ (new_row next_hop p ∷ []);
    mutated = true;
  }

  -- The loop over the routes that no row has.
  unfoldable pub create_rows : List Prefix → Merge → Merge
  create_rows [] st = st
  create_rows (p ∷ ps) st = create_rows ps (if contains st.seen p then st else create_row p st)

  -- What `syncTable` computes of the table's rows.
  unfoldable pub merge : List Row → Merge
  merge rows = create_rows routes (merge_rows rows start)

module _ (api : RouteTables) where
  open api use {World, get_route_table, update_static_routes}

  unfoldable pub finish : Text → Bool → Merge → World → Report × World
  finish table dry m w =
      let (e, w') = update_static_routes table m.desired w in
      if not m.mutated
      then ((m.changes, none), w)
      else if dry
      then ((m.changes, none), w)
      else ((m.changes, e), w')

  -- `syncTable`, behind its reading of the table.
  abbrev pub sync_read :
      Text → List Prefix → Addr → Bool → Result (List Row) × World → Report × World
  sync_read table routes next_hop dry (err e, w) = (([], some e), w)
  sync_read table routes next_hop dry (ok rows, w) =
      finish table dry (merge table routes (addr_string next_hop) rows) w

  -- `syncTable`
  unfoldable pub sync_table : Text → List Prefix → Addr → Bool → World → Report × World
  sync_table table routes next_hop dry w =
      sync_read table routes next_hop dry (get_route_table table w)

  -- The loop of `Sync` over the tables, with the changes and errors so far.
  unfoldable pub sync_tables :
      List Text → List Prefix → Addr → Bool → List Change → List Error → World → Report × World
  sync_tables [] routes next_hop dry changes errs w = ((changes, join errs), w)
  sync_tables (t ∷ ts) routes next_hop dry changes errs w =
      let (r, w') = sync_table t routes next_hop dry w in
      sync_tables ts routes next_hop dry (changes ++ r.0)
        (errs ++ to_list (Option.map (wrapf "route table %s: %w" (t ∷ [])) r.1)) w'

  -- `Sync`
  unfoldable pub sync : List Text → List Prefix → Addr → Bool → World → Report × World
  sync tables routes next_hop dry w = sync_tables tables routes next_hop dry [] [] w

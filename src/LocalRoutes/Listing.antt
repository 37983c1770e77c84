-- ===== src/LocalRoutes/Listing.antt =====
-- internal/localroutes/localroutes.go: reading the output of ip(8).
use cloud_route_manager.Base.{
  ◌≡◌, refl, Text, text_eq, Eq, codes, Bool, true, false, List, [], ◌∷◌, ◌==◌, if◌then◌else◌,
  Option, none, some, errorf, Result, ok, err,
}
use cloud_route_manager.Base.Strings.{fields, split, equal_fold}
use cloud_route_manager.Base.Maps.{Map, insert}
use cloud_route_manager.Netip.{
  Addr, Addr-discrete, no_addr, is_valid, Prefix, prefix_eq, unmap, parse_addr, addr_string,
}
use cloud_route_manager.Routes.{parse_one}
use cloud_route_manager.LocalRoutes.Specs.{target_blackhole}

-- `entry`
pub record Entry : Type 0 where
  pub gateway : Addr
  pub blackhole : Bool

Entry-discrete : Discrete Entry
Entry-discrete = hlevel Addr-discrete

instance unfoldable pub entry_eq : Eq Entry
unfolding Entry-discrete
entry_eq = record { dec = Entry-discrete }

-- `entry.nextHop`
unfoldable pub next_hop : Entry → Text
next_hop e =
    if e.blackhole
    then target_blackhole
    else if is_valid e.gateway
    then addr_string e.gateway
    else codes "link"

abbrev via : Text
via = codes "via"

-- The text behind the first `via` that is not the last field.
unfoldable pub behind_via : List Text → Option Text
behind_via [] = none
behind_via (f ∷ []) = none
behind_via (f ∷ g ∷ fs) = if f == via then some g else behind_via (g ∷ fs)

-- The gateway of a listed route; the zero address if there is none that can be parsed.
abbrev gateway_of : Option Text → Addr
gateway_of none = no_addr
gateway_of (some t) = elim (parse_addr t) [ none ↦ no_addr | some gw ↦ unmap gw ]

-- A listed route, behind its keyword: the fields begin with the prefix.
unfoldable pub route_of : Bool → List Text → Option (Prefix × Entry)
route_of hole [] = none
route_of hole (f ∷ fs) = elim (parse_one f) [
  | err e ↦ none
  | ok p ↦ some (p, record { gateway = gateway_of (behind_via (f ∷ fs)); blackhole = hole })
]

-- One line of the listing; none if `list` skips it.
unfoldable pub parse_line : List Text → Option (Prefix × Entry)
parse_line [] = none
parse_line (f ∷ fs) =
    if equal_fold f target_blackhole then route_of true fs else route_of false (f ∷ fs)

abbrev file_entry : Option (Prefix × Entry) → Map Prefix Entry → Map Prefix Entry
file_entry none m = m
file_entry (some (p, e)) m = insert p e m

unfoldable pub parse_listing : List Text → Map Prefix Entry → Map Prefix Entry
parse_listing [] m = m
parse_listing (line ∷ lines) m = parse_listing lines (file_entry (parse_line (fields line)) m)

-- The first gateway behind a `via` in the fields of a line that can be parsed.
unfoldable pub line_gateway : List Text → Option Addr
line_gateway [] = none
line_gateway (f ∷ []) = none
line_gateway (f ∷ g ∷ fs) =
    let rest = line_gateway (g ∷ fs) in
    if f == via then elim (parse_addr g) [ none ↦ rest | some gw ↦ some (unmap gw) ] else rest

abbrev first_some : Option Addr → Option Addr → Option Addr
first_some none o = o
first_some (some a) o = some a

unfoldable pub find_gateway : List Text → Option Addr
find_gateway [] = none
find_gateway (line ∷ lines) = first_some (line_gateway (fields line)) (find_gateway lines)

-- `Runner`: ip(8) with its arguments.
pub record Runner : Type 1 where
  pub World : Type 0
  pub run : List Text → World → Result Text × World

-- The protocol id of a manager, as it is printed.
abbrev pub proto_arg : Text
proto_arg = codes "201"

abbrev pub show_ours : List Text
show_ours = codes "-o" ∷ codes "route" ∷ codes "show" ∷ codes "proto" ∷ proto_arg ∷ []

abbrev pub show_default : List Text
show_default = codes "-o" ∷ codes "route" ∷ codes "show" ∷ codes "default" ∷ []

module _ (ip : Runner) where
  open ip use {World, run}

  abbrev read_list : Result Text × World → Result (Map Prefix Entry) × World
  read_list (err e, w) = (err e, w)
  read_list (ok out, w) = (ok (parse_listing (split b'\n' out) []), w)

  -- `list`
  unfoldable pub list : World → Result (Map Prefix Entry) × World
  list w = read_list (run show_ours w)

  abbrev found : Option Addr → Result Addr
  found none = err (errorf "no default route with a gateway to resolve \"via default\"" [])
  found (some a) = ok a

  abbrev read_default : Result Text × World → Result Addr × World
  read_default (err e, w) = (err e, w)
  read_default (ok out, w) = (found (find_gateway (split b'\n' out)), w)

  -- `defaultGateway`
  unfoldable pub default_gateway : World → Result Addr × World
  default_gateway w = read_default (run show_default w)

  world-read_list : (r : Result Text × World) → (read_list r).1 ≡ r.1
  world-read_list (ok out, w) = refl
  world-read_list (err e, w) = refl

  -- `list` and `defaultGateway` run ip(8) once.
  pub world-list : (w : World) → (list w).1 ≡ (run show_ours w).1
  unfolding list
  world-list w = world-read_list (run show_ours w)

  world-read_default : (r : Result Text × World) → (read_default r).1 ≡ r.1
  world-read_default (ok out, w) = refl
  world-read_default (err e, w) = refl

  pub world-default_gateway : (w : World) → (default_gateway w).1 ≡ (run show_default w).1
  unfolding default_gateway
  world-default_gateway w = world-read_default (run show_default w)

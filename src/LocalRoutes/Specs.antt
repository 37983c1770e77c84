-- ===== src/LocalRoutes/Specs.antt =====
-- internal/localroutes/spec.go: the entries of local-static-routes.
pub mod Laws
use mathlib.Core.Bool.{xor}
use cloud_route_manager.Base.{
  Text, text_eq, codes, Bool, true, false, not, ◌&&◌, ◌||◌, List, [], ◌∷◌, ◌++◌, ◌==◌,
  if◌then◌else◌, Option, none, some, Error, errorf, wrapf, Result, ok, err, ◌>>=◌, wrap_err,
  from_option,
}
use cloud_route_manager.Base.Strings.{fields, equal_fold, to_lower}
use cloud_route_manager.Netip.{
  Addr, no_addr, is4, Prefix, unmap, parse_addr, prefix_string, addr_string,
}
use cloud_route_manager.Routes.{parse_one}

abbrev pub target_default : Text
target_default = codes "default"

abbrev pub target_blackhole : Text
target_blackhole = codes "blackhole"

-- `Spec`
pub record Spec : Type 0 where
  pub prefix : Prefix
  pub gateway : Addr
  pub via_default : Bool
  pub blackhole : Bool

-- `Spec.String`
unfoldable pub spec_string : Spec → Text
spec_string s =
    if s.blackhole
    then prefix_string s.prefix ++ (codes " via " ++ target_blackhole)
    else if s.via_default
    then prefix_string s.prefix ++ (codes " via " ++ target_default)
    else prefix_string s.prefix ++ (codes " via " ++ addr_string s.gateway)

-- The gateway of a spec whose target is no keyword.
unfoldable pub with_gateway : Text → Prefix → Option Addr → Result Spec
with_gateway raw p none =
    err (wrapf "invalid route %q: gateway: %w" (raw ∷ []) (errorf "netip.ParseAddr" []))
with_gateway raw p (some gw) =
    if xor (is4 (unmap gw)) (is4 p.addr)
    then err (
        errorf "invalid route %q: gateway and prefix belong to different address families"
          (raw ∷ []))
    else ok (record { prefix = p; gateway = unmap gw; via_default = false; blackhole = false })

unfoldable pub with_target : Text → Text → Prefix → Result Spec
with_target raw target p =
    if to_lower target == target_default
    then ok (record { prefix = p; gateway = no_addr; via_default = true; blackhole = false })
    else if to_lower target == target_blackhole
    then ok (record { prefix = p; gateway = no_addr; via_default = false; blackhole = true })
    else with_gateway raw p (parse_addr target)

abbrev malformed : Text → Error
malformed raw =
    errorf "invalid route %q: expected \"<prefix> via <gateway|default|blackhole>\"" (raw ∷ [])

-- `ParseSpec`, by the fields of the entry.
unfoldable pub parse_fields : Text → List Text → Result Spec
parse_fields raw (prefix ∷ via ∷ target ∷ []) =
    if not (equal_fold via (codes "via"))
    then err (malformed raw)
    else wrap_err "invalid route %q: %w" (raw ∷ []) (parse_one prefix) >>= with_target raw target
parse_fields raw _ = err (malformed raw)

unfoldable pub parse_spec : Text → Result Spec
parse_spec raw = parse_fields raw (fields raw)

-- `ParseSpecs`: the first invalid entry is reported.
unfoldable pub parse_specs : List Text → Result (List Spec)
parse_specs [] = ok []
parse_specs (e ∷ es) = do spec ← parse_spec e; specs ← parse_specs es; ok (spec ∷ specs)

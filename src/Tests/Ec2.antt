-- ===== src/Tests/Ec2.antt =====
-- An account with route tables, as an instance of the EC2 API: it stores what it is sent.
use mathlib.Core.Option
use cloud_route_manager.Base.{
  ◌≡◌, refl, ap, ◌∙◌, sym, Text, text_eq, codes, true, false, ◌&&◌, List, [], ◌∷◌, ◌++◌, arith,
  ◌==◌, if◌then◌else◌, is_empty, Option, none, some, Result, ok, err, errorf, subst, Bool-cases,
  inl, inr,
}
use cloud_route_manager.Base.Maps.{Map, lookup, lookup-insert}
use cloud_route_manager.Netip.{
  Prefix, prefix_eq, IsReadBack, prefix_string, masked, parse_prefix, parse_prefix-nil,
}
use cloud_route_manager.Aws.{
  Route, RouteInput, Ec2, active, route_input, route_prefix, file_route, index,
}
use cloud_route_manager.Aws.Service.{IsFaithful, GoesTo}

-- A table and a route in it; the last of one destination counts.
abbrev pub Account : Type 0
Account = List (Text × Route)

abbrev pub stored : RouteInput → Route
stored input = record {
  destination_cidr_block = input.destination_cidr_block;
  destination_ipv6_cidr_block = input.destination_ipv6_cidr_block;
  network_interface_id = some input.network_interface_id;
  gateway_id = none;
  nat_gateway_id = none;
  transit_gateway_id = none;
  instance_id = none;
  vpc_peering_connection_id = none;
  egress_only_internet_gateway_id = none;
  local_gateway_id = none;
  carrier_gateway_id = none;
  core_network_arn = none;
  state = active;
}

unfoldable pub routes_of : Text → Account → List Route
routes_of t [] = []
routes_of t ((u, r) ∷ w) = let rest = routes_of t w in if u == t then r ∷ rest else rest

abbrev pub put : RouteInput → Account → Account
put input w = w ++ (input.route_table_id, stored input) ∷ []

abbrev pub account : Ec2
account = record {
  World = Account;
  describe_route_tables = λ t w. (ok (routes_of t w ∷ []), w);
  describe_network_interfaces = λ ip w. (ok (some (codes "eni-1") ∷ []), w);
  create_route = λ input w. (ok tt, put input w);
  replace_route = λ input w. (ok tt, put input w);
  get_metadata = λ path w. (err (errorf "no metadata" []), w);
}

routes_of-put :
    (t : Text) (input : RouteInput) (w : Account)
    → routes_of t (put input w)
      ≡ (if input.route_table_id == t then routes_of t w ++ stored input ∷ [] else routes_of t w)
unfolding routes_of
routes_of-put t input [] = ground arith
routes_of-put t input ((u, r) ∷ w) = ground (arith, routes_of-put t input w)

index-snoc :
    (rs : List Route) (r : Route) (m : Map Prefix Route)
    → index (rs ++ r ∷ []) m ≡ file_route (route_prefix r) r (index rs m)
unfolding index
index-snoc [] r m = refl
index-snoc (x ∷ rs) r m = index-snoc rs r (file_route (route_prefix x) x m)

cidr_prefix : Text → Option Prefix
cidr_prefix s = if is_empty s then none else Option.map masked (parse_prefix s)

read_cidr :
    (s : Text) (p : Prefix) → parse_prefix s ≡ some p → masked p ≡ p → cidr_prefix s ≡ some p
unfolding cidr_prefix
read_cidr [] p h m = cc parse_prefix-nil
read_cidr (c ∷ s) p h m = rw h (rw m)

route_prefix-stored :
    (t eni : Text) (p : Prefix)
    → route_prefix (stored (route_input t eni p)) ≡ cidr_prefix (prefix_string p)
unfolding route_prefix route_input cidr_prefix
route_prefix-stored t eni p = ground arith

input_table : (t eni : Text) (p : Prefix) → (route_input t eni p).route_table_id ≡ t
unfolding route_input
input_table t eni p = refl

GoesTo-stored : (t eni : Text) (p : Prefix) → GoesTo eni (some (stored (route_input t eni p)))
unfolding route_input
GoesTo-stored t eni p = (refl, refl)

abbrev first : Result (List (List Route)) → List Route
first (ok (rs ∷ rest)) = rs
first _ = []

abbrev pub held : Account → Text → Prefix → Option Route
held w t p = lookup p (index (routes_of t w) [])

held-put :
    (t eni : Text) (p : Prefix) (w : Account) (u : Text) (q : Prefix)
    → IsReadBack p
    → held (put (route_input t eni p) w) u q
      ≡ (if t == u && p == q then some (stored (route_input t eni p)) else held w u q)
unfolding file_route
held-put t eni p w u q b =
    let r = stored (route_input t eni p) in
    let e = route_prefix-stored t eni p ∙ read_cidr (prefix_string p) p b.read_back b.is_masked in
    elim (Bool-cases (t == u)) [
      | inl k ↦ rw k (
          rw (routes_of-put u (route_input t eni p) w) (
            rw (input_table t eni p) (
              rw k (
                rw (index-snoc (routes_of u w) r [])
                  (rw e (lookup-insert p q r (index (routes_of u w) [])))))))
      | inr k ↦
          rw k (rw (routes_of-put u (route_input t eni p) w) (rw (input_table t eni p) (rw k)))
    ]

same_key : (t : Text) (p : Prefix) → (t == t && p == p) ≡ true
same_key t p = ground arith

pub put_sets :
    (t eni : Text) (p : Prefix) (w w' : Account)
    → IsReadBack p
    → put (route_input t eni p) w ≡ w'
    → GoesTo eni (held w' t p)
put_sets t eni p w w' b h =
    subst (λ v. GoesTo eni (held v t p)) h
      (rw (held-put t eni p w t p b) (rw (same_key t p) (GoesTo-stored t eni p)))

pub put_keeps :
    (t eni : Text) (p : Prefix) (w : Account) (u : Text) (q : Prefix)
    → IsReadBack p
    → (t == u && p == q) ≡ false
    → held (put (route_input t eni p) w) u q ≡ held w u q
put_keeps t eni p w u q b n = held-put t eni p w u q b ∙ rw n

unfoldable pub account-IsFaithful : IsFaithful account
account-IsFaithful = record {
  view = held;
  described = λ t w w' rs rest p h. ap (λ l. lookup p (index l [])) (ap (λ r. first r.0) (sym h));
  describe_keeps = λ t u w p. refl;
  create_sets = λ t eni p w w' b h. put_sets t eni p w w' b (ap (λ r. r.1) h);
  create_keeps = λ t eni p w u q b n. put_keeps t eni p w u q b n;
  create_fails = λ t eni p w w' e u q h. cc h;
  replace_sets = λ t eni p w w' b h. put_sets t eni p w w' b (ap (λ r. r.1) h);
  replace_keeps = λ t eni p w u q b n. put_keeps t eni p w u q b n;
  replace_fails = λ t eni p w w' e u q h. cc h;
}

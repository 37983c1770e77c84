-- ===== src/Aws/Service.antt =====
-- The API of EC2 that internal/cloud/aws/aws.go calls: what it documents of its route tables.
use cloud_route_manager.Base.{
  ◌≡◌, Text, text_eq, true, false, ◌&&◌, List, [], ◌∷◌, ◌==◌, arith, Option, none, some, Error, ok,
  err,
}
use cloud_route_manager.Base.Maps.{lookup}
use cloud_route_manager.Netip.{Prefix, prefix_eq, IsReadBack}
use cloud_route_manager.Aws.{Route, Ec2, index, targets, route_input, to_string, active}

-- A route is there, goes to the interface, and is active.
abbrev pub GoesTo : Text → Option Route → Type 0
GoesTo eni none = ⊥
GoesTo eni (some r) = (to_string r.network_interface_id ≡ eni) × (r.state ≡ active)

-- This is what `syncTable` tests.
pub GoesTo-targets : (eni : Text) (o : Option Route) → targets eni o ≡ true → GoesTo eni o
GoesTo-targets eni none h = cc h
GoesTo-targets eni (some r) h = ground arith

pub targets_of_GoesTo : (eni : Text) (o : Option Route) → GoesTo eni o → targets eni o ≡ true
targets_of_GoesTo eni none h = absurd h
targets_of_GoesTo eni (some r) h = ground arith

-- What the documentation of EC2 says of the calls, by the routes that a table holds in a world.
pub record IsFaithful (api : Ec2) : Type 1 where
  pub view : api.World → Text → Prefix → Option Route
  pub described :
      (t : Text) (w w' : api.World) (rs : List Route) (rest : List (List Route)) (p : Prefix)
      → api.describe_route_tables t w ≡ (ok (rs ∷ rest), w')
      → lookup p (index rs []) ≡ view w t p
  pub describe_keeps :
      (t u : Text) (w : api.World) (p : Prefix)
      → view (api.describe_route_tables t w).1 u p ≡ view w u p
  pub create_sets :
      (t eni : Text) (p : Prefix) (w w' : api.World)
      → IsReadBack p
      → api.create_route (route_input t eni p) w ≡ (ok tt, w')
      → GoesTo eni (view w' t p)
  pub create_keeps :
      (t eni : Text) (p : Prefix) (w : api.World) (u : Text) (q : Prefix)
      → IsReadBack p
      → (t == u && p == q) ≡ false
      → view (api.create_route (route_input t eni p) w).1 u q ≡ view w u q
  pub create_fails :
      (t eni : Text) (p : Prefix) (w w' : api.World) (e : Error) (u : Text) (q : Prefix)
      → api.create_route (route_input t eni p) w ≡ (err e, w')
      → view w' u q ≡ view w u q
  pub replace_sets :
      (t eni : Text) (p : Prefix) (w w' : api.World)
      → IsReadBack p
      → api.replace_route (route_input t eni p) w ≡ (ok tt, w')
      → GoesTo eni (view w' t p)
  pub replace_keeps :
      (t eni : Text) (p : Prefix) (w : api.World) (u : Text) (q : Prefix)
      → IsReadBack p
      → (t == u && p == q) ≡ false
      → view (api.replace_route (route_input t eni p) w).1 u q ≡ view w u q
  pub replace_fails :
      (t eni : Text) (p : Prefix) (w w' : api.World) (e : Error) (u : Text) (q : Prefix)
      → api.replace_route (route_input t eni p) w ≡ (err e, w')
      → view w' u q ≡ view w u q

-- ===== src/Aws/Twice.antt =====
-- internal/cloud/aws/aws.go: a second run of `syncTable`.
use cloud_route_manager.Base.{
  ◌≡◌, ap, ◌∙◌, Text, text_eq, true, false, List, [], ◌∷◌, ◌++◌, arith, Option, none, some, ok,
  contains, All,
}
use mathlib.Core.List.{append_assoc, append-nil}
use cloud_route_manager.Base.Maps.{Map, lookup}
use cloud_route_manager.Netip.{Prefix, prefix_eq, prefix_string, IsReadBack}
use cloud_route_manager.Cloud.{Change, noop}
use cloud_route_manager.Aws.{
  Route, Ec2, Progress, start, note, index, sync_route, sync_routes, sync_described, sync_table,
  targets,
}
use cloud_route_manager.Aws.Service.{IsFaithful}
use cloud_route_manager.Aws.Runs.{sync_table-Points}

-- A no-op for each route.
abbrev pub noops : Text → List Prefix → List Change
noops table [] = []
noops table (p ∷ ps) =
    record { table = table; prefix = prefix_string p; action = noop; prev_next_hop = [] }
    ∷ noops table ps

module _ (api : Ec2) (table eni : Text) where
  open api use {World, describe_route_tables}

  sync_route_present :
      (p : Prefix) (o : Option Route) (w : World)
      → targets eni o ≡ true
      → sync_route api table eni false p o w ≡ (
        ok (record { table = table; prefix = prefix_string p; action = noop; prev_next_hop = [] }),
        w,
      )
  unfolding sync_route
  sync_route_present p none w h = cc h
  sync_route_present p (some r) w h = rw h

  sync_routes_present :
      (existing : Map Prefix Route) (ps : List Prefix) (st : Progress) (w : World)
      → ((p : Prefix) → contains ps p ≡ true → targets eni (lookup p existing) ≡ true)
      → sync_routes api table eni false existing ps st w
        ≡ (record st { changes = st.changes ++ noops table ps }, w)
  unfolding sync_routes note
  sync_routes_present existing [] st w h = rw append-nil
  sync_routes_present existing (p ∷ ps) st w h =
      rw (sync_route_present p (lookup p existing) w (h p (ground arith)))
        (sync_routes_present existing ps _ w (λ q m. h q (ground arith)) ∙ rw append_assoc)

  -- After a run without errors a second run, if the table can be described, reports a no-op for each
  -- route and no error, and changes nothing: the world is the one that the description left. This is
  -- for an API that does what EC2 documents and prefixes that are read back from their text.
  pub sync_table_twice :
      IsFaithful api
      → (routes : List Prefix) → All IsReadBack routes
      → (w : World) (cs : List Change) (w₁ w₂ : World) (rs : List Route) (rest : List (List Route))
      → sync_table api table routes eni false w ≡ ((cs, none), w₁)
      → describe_route_tables table w₁ ≡ (ok (rs ∷ rest), w₂)
      → sync_table api table routes eni false w₁ ≡ ((noops table routes, none), w₂)
  unfolding sync_table sync_described
  sync_table_twice f routes b w cs w₁ w₂ rs rest h d = rw d (
      rw (
        sync_routes_present (index rs []) routes start w₂ λ p m.
          ap (targets eni) (f.described table w₁ w₂ rs rest p d)
          ∙ sync_table-Points api f table eni routes b w cs w₁ p
              (unfold sync_table sync_described in h) m))

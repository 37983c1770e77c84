-- ===== src/Aws/Planning.antt =====
-- internal/cloud/aws/aws.go: the plan of `syncTable`, and how its results count up.
use cloud_route_manager.Base.{
  ℕ, ◌+◌, ◌≡◌, Text, text_eq, Bool, List, [], ◌∷◌, arith, Result, ok, err, length, length-append,
}
use cloud_route_manager.Base.Maps.{Map, lookup}
use cloud_route_manager.Netip.{Prefix, prefix_eq}
use cloud_route_manager.Cloud.{Change}
use cloud_route_manager.Aws.{Route, Ec2, Progress, note, change, sync_route, sync_routes}

-- The changes that bring the routes to the interface, by what the table holds.
abbrev pub plan : Text → Text → Map Prefix Route → List Prefix → List Change
plan table eni existing [] = []
plan table eni existing (p ∷ ps) =
    change table p (lookup p existing) eni ∷ plan table eni existing ps

module _ (api : Ec2) (table eni : Text) where
  open api use {World, describe_route_tables}

  abbrev counted : Progress → ℕ
  counted st = length st.changes + length st.errs

  counted-note : (st : Progress) (r : Result Change) → counted (note st r) ≡ counted st + 1
  unfolding note
  counted-note st (ok c) = ground (arith, length-append st.changes (c ∷ []))
  counted-note st (err e) = ground (arith, length-append st.errs (e ∷ []))

  -- The loop over the routes gives one change or one error for each route, whatever the API answers.
  pub counted-sync_routes :
      (dry : Bool) (existing : Map Prefix Route) (ps : List Prefix) (st : Progress) (w : World)
      → counted (sync_routes api table eni dry existing ps st w).0 ≡ counted st + length ps
  unfolding sync_routes
  counted-sync_routes dry existing [] st w = omega arith
  counted-sync_routes dry existing (p ∷ ps) st w =
      let (r, w') = sync_route api table eni dry p (lookup p existing) w in
      omega (arith, counted-sync_routes dry existing ps (note st r) w', counted-note st r)

-- ===== src/LocalRoutes/Manager/DryRun.antt =====
-- internal/localroutes/localroutes.go: the commands of a dry run.
use cloud_route_manager.Base.{
  ◌≡◌, refl, Bool, true, false, not, List, [], ◌∷◌, arith, Result, ok, err, Bool-cases, inl, inr,
  ◌⊎◌,
}
use cloud_route_manager.Base.Maps.{Map, lookup}
use cloud_route_manager.Netip.{Addr, Prefix, prefix_eq, is_valid}
use cloud_route_manager.LocalRoutes.Specs.{Spec}
use cloud_route_manager.LocalRoutes.Listing.{
  Entry, Runner, list, default_gateway, show_ours, show_default, world-list, world-default_gateway,
}
use cloud_route_manager.LocalRoutes.Manager.{
  State, start, note, perform, resolve, resolved, install, sync_resolved, sync_specs, remove_stale,
  sync_listed, sync, change_of, delete_change,
}

-- The worlds that are reached by showing routes.
pub data ShowsOnly (ip : Runner) (w : ip.World) : ip.World → Type 0 where
  here : ShowsOnly ip w w
  ours : {v : ip.World} → ShowsOnly ip w v → ShowsOnly ip w (ip.run show_ours v).1
  default : {v : ip.World} → ShowsOnly ip w v → ShowsOnly ip w (ip.run show_default v).1

module _ (ip : Runner) where
  open ip use {World, run}

  world-resolved : (spec : Spec) (r : Result Addr × World) → (resolved ip spec r).2 ≡ r.1
  world-resolved spec (ok a, w) = refl
  world-resolved spec (err e, w) = refl

  world-resolve :
      (spec : Spec) (gateway : Addr) (v : World)
      → ((resolve ip spec gateway v).2 ≡ v)
        ⊎ ((resolve ip spec gateway v).2 ≡ (run show_default v).1)
  unfolding resolve
  world-resolve spec gateway v = elim (Bool-cases (not spec.via_default)) [
    | inl e ↦ inl (ground arith)
    | inr e ↦ elim (Bool-cases (is_valid gateway)) [
      | inl k ↦ inl (ground arith)
      | inr k ↦
          inr
            (ground (arith, world-resolved spec (default_gateway ip v), world-default_gateway ip v))
    ]
  ]

  Shows-resolve :
      (spec : Spec) (gateway : Addr) (w v : World)
      → ShowsOnly ip w v
      → ShowsOnly ip w (resolve ip spec gateway v).2
  Shows-resolve spec gateway w v h = elim (world-resolve spec gateway v) [
    | inl e ↦ rw e h
    | inr e ↦ rw e (default h)
  ]

  install_dry :
      (current : Map Prefix Entry) (p : Prefix) (want : Entry) (w : World)
      → install ip true current p want w ≡ (ok (change_of p want (lookup p current)), w)
  unfolding install perform
  install_dry current p want w = ground arith

  world-sync_resolved :
      (current : Map Prefix Entry) (spec : Spec) (r : Result Addr × Addr × World) (st : State)
      → (sync_resolved ip true current spec r st).1 ≡ r.2
  unfolding sync_resolved
  world-sync_resolved current spec (ok a, gateway, w) st = rw install_dry refl
  world-sync_resolved current spec (err e, gateway, w) st = refl

  Shows-sync_specs :
      (current : Map Prefix Entry) (specs : List Spec) (st : State) (w v : World)
      → ShowsOnly ip w v
      → ShowsOnly ip w (sync_specs ip true current specs st v).1
  unfolding sync_specs
  Shows-sync_specs current [] st w v h = h
  Shows-sync_specs current (spec ∷ specs) st w v h = Shows-sync_specs current specs _ w _ (
      rw (world-sync_resolved current spec (resolve ip spec st.gateway v) st)
        (Shows-resolve spec st.gateway w v h))

  world-remove_stale :
      (current : Map Prefix Entry) (st : State) (w : World)
      → (remove_stale ip true current st w).1 ≡ w
  unfolding remove_stale perform
  world-remove_stale [] st w = refl
  world-remove_stale ((p, cur) ∷ current) st w = ground (
    arith,
    world-remove_stale current st w,
    world-remove_stale current (note st (ok (delete_change p cur))) w,
  )

  Shows-sync_listed :
      (specs : List Spec) (stale : Bool) (r : Result (Map Prefix Entry) × World) (w : World)
      → ShowsOnly ip w r.1
      → ShowsOnly ip w (sync_listed ip specs stale true r).1
  unfolding sync_listed
  Shows-sync_listed specs stale (err e, v) w h = h
  Shows-sync_listed specs true (ok current, v) w h =
      rw world-remove_stale (Shows-sync_specs current specs start w v h)
  Shows-sync_listed specs false (ok current, v) w h = Shows-sync_specs current specs start w v h

  -- In a dry run ip(8) is only asked to show our routes and the default route.
  pub sync-ShowsOnly :
      (specs : List Spec) (stale : Bool) (w : World) → ShowsOnly ip w (sync ip specs stale true w).1
  unfolding sync
  sync-ShowsOnly specs stale w =
      Shows-sync_listed specs stale (list ip w) w (rw (world-list ip w) (ours here))

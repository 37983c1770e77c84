-- ===== src/LocalRoutes/Manager/Stale.antt =====
-- internal/localroutes/localroutes.go: which listed routes are deleted.
use mathlib.Core.List.{append-nil, append_assoc}
use cloud_route_manager.Base.{
  ◌≡◌, refl, ◌∙◌, Bool, true, List, [], ◌∷◌, ◌++◌, if◌then◌else◌, ok, err, contains, Bool-cases,
  inl, inr, wrapf, join, Error,
}
use cloud_route_manager.Base.Maps.{Map}
use cloud_route_manager.Netip.{Prefix, prefix_eq}
use cloud_route_manager.Cloud.{Change}
use cloud_route_manager.LocalRoutes.Specs.{Spec, spec_string}
use cloud_route_manager.LocalRoutes.Listing.{Entry, Runner, list, default_gateway}
use cloud_route_manager.LocalRoutes.Manager.{
  State, start, note, perform, resolve, sync_resolved, sync_specs, remove_stale, sync_listed, sync,
  delete_change,
}

-- The deletions of the listed routes that are not desired.
abbrev pub deletions : List Prefix → Map Prefix Entry → List Change
deletions desired [] = []
deletions desired ((p, cur) ∷ current) =
    if contains desired p
    then deletions desired current
    else delete_change p cur ∷ deletions desired current

module _ (ip : Runner) where
  open ip use {World, run}

  -- In a dry run the loop over the listed routes reports the deletion of exactly those whose prefix
  -- is not desired, and nothing else changes.
  pub remove_stale_dry :
      (current : Map Prefix Entry) (st : State) (w : World)
      → remove_stale ip true current st w
        ≡ (record st { changes = st.changes ++ deletions st.desired current }, w)
  unfolding remove_stale perform note
  remove_stale_dry [] st w = rw append-nil
  remove_stale_dry ((p, cur) ∷ current) st w = elim (Bool-cases (contains st.desired p)) [
    | inl e ↦ rw (e, remove_stale) (remove_stale_dry current st w)
    | inr e ↦ rw (e, remove_stale) (remove_stale_dry current _ w ∙ rw append_assoc)
  ]

  -- A spec whose next hop is the default route, where no default gateway is found: the loop reports an
  -- error and does not mark the prefix as desired.
  unresolved :
      (dry : Bool) (current : Map Prefix Entry) (spec : Spec) (w w' : World) (e : Error)
      → spec.via_default ≡ true
      → default_gateway ip w ≡ (err e, w')
      → sync_specs ip dry current (spec ∷ []) start w
        ≡ (record start { errs = wrapf "%s: %w" (spec_string spec ∷ []) e ∷ [] }, w')
  unfolding sync_specs resolve sync_resolved note
  unresolved dry current spec w w' e v g = rw v (rw g refl)

  -- A dry run that removes stale routes, for one spec via the default gateway where no default
  -- gateway is found, reports the deletion of every listed route, that of the spec included, and the
  -- error of the spec.
  pub sync_unresolved :
      (spec : Spec) (w v v' : World) (current : Map Prefix Entry) (e : Error)
      → spec.via_default ≡ true
      → list ip w ≡ (ok current, v)
      → default_gateway ip v ≡ (err e, v')
      → sync ip (spec ∷ []) true true w
        ≡ ((deletions [] current, join (wrapf "%s: %w" (spec_string spec ∷ []) e ∷ [])), v')
  unfolding sync sync_listed
  sync_unresolved spec w v v' current e d l g =
      rw l (rw (unresolved true current spec v v' e d g) (rw remove_stale_dry refl))

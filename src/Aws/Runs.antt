-- ===== src/Aws/Runs.antt =====
-- internal/cloud/aws/aws.go: what a real run of `syncTable` leaves in the tables.
use cloud_route_manager.Base.{
  subst, All, ◌≡◌, refl, ap, ◌∙◌, sym, Text, text_eq, true, false, ◌&&◌, List, [], ◌∷◌, arith, ◌==◌,
  none, Result, ok, err, contains,
}
use cloud_route_manager.Netip.{Prefix, prefix_eq, IsReadBack}
use cloud_route_manager.Cloud.{Change}
use cloud_route_manager.Aws.{
  Route, Ec2, start, index, sync_routes, sync_described, sync_table, targets,
}
use cloud_route_manager.Aws.Service.{IsFaithful, GoesTo, GoesTo-targets}
use cloud_route_manager.Aws.Effects.{
  sync_routes-makes, sync_routes-keeps, sync_routes-Points, join-eq-none,
}

module _ (api : Ec2) (f : IsFaithful api) (table eni : Text) where
  open api use {World, describe_route_tables}
  open f use {view}

  abbrev Points : World → Prefix → Type 0
  Points w p = targets eni (view w table p) ≡ true

  described-Points :
      (routes : List Prefix) (b : All IsReadBack routes) (w : World)
      (out : Result (List (List Route)) × World)
      → describe_route_tables table w ≡ out
      → (cs : List Change) (w' : World) (q : Prefix)
      → sync_described api table routes eni false out ≡ ((cs, none), w')
      → contains routes q ≡ true
      → Points w' q
  unfolding sync_described
  described-Points routes b w (err e, w₁) d cs w' q h m = cc h
  described-Points routes b w (ok [], w₁) d cs w' q h m = cc h
  described-Points routes b w (ok (rs ∷ rest), w₁) d cs w' q h m =
      let st = sync_routes api table eni false (index rs []) routes start w₁ in
      subst (λ x. Points x q) (ap (λ r. r.1) h)
        (sync_routes-makes api f table eni (index rs []) routes start w₁ q b
          (λ p k. rw (seen w rs rest w₁ d p) (rw (f.described table w w₁ rs rest p d) at k))
          (join-eq-none st.0.errs (ap (λ r. r.0.1) h)) m)
    where
      seen :
          (w : World) (rs : List Route) (rest : List (List Route)) (w₁ : World)
          → describe_route_tables table w ≡ (ok (rs ∷ rest), w₁)
          → (p : Prefix) → view w₁ table p ≡ view w table p
      seen w rs rest w₁ d p = rw (ap (λ r. r.1) d) at (f.describe_keeps table table w p)

  pub sync_table-Points :
      (routes : List Prefix) (b : All IsReadBack routes) (w : World) (cs : List Change) (w' : World)
      (q : Prefix)
      → sync_table api table routes eni false w ≡ ((cs, none), w')
      → contains routes q ≡ true
      → targets eni (view w' table q) ≡ true
  unfolding sync_table
  sync_table-Points routes b w cs w' q h m =
      described-Points routes b w (describe_route_tables table w) refl cs w' q h m

  described-keeps :
      (routes : List Prefix) (b : All IsReadBack routes) (out : Result (List (List Route)) × World)
      (u : Text) (q : Prefix)
      → (table == u && contains routes q) ≡ false
      → view (sync_described api table routes eni false out).1 u q ≡ view out.1 u q
  unfolding sync_described
  described-keeps routes b (err e, w₁) u q n = refl
  described-keeps routes b (ok [], w₁) u q n = refl
  described-keeps routes b (ok (rs ∷ rest), w₁) u q n =
      sync_routes-keeps api f table eni (index rs []) routes start w₁ u q b n

  -- A real run leaves each route that is not in the list as it is, and so every other table, whether
  -- it succeeds or not, for an API that does what EC2 documents and prefixes that are read back from
  -- their text.
  pub sync_table-keeps :
      (routes : List Prefix) (b : All IsReadBack routes) (w : World) (u : Text) (q : Prefix)
      → (table == u && contains routes q) ≡ false
      → view (sync_table api table routes eni false w).1 u q ≡ view w u q
  unfolding sync_table
  sync_table-keeps routes b w u q n =
      described-keeps routes b (describe_route_tables table w) u q n ∙ f.describe_keeps table u w q

  described-preserves :
      (routes : List Prefix) (b : All IsReadBack routes) (out : Result (List (List Route)) × World)
      (q : Prefix)
      → Points out.1 q
      → Points (sync_described api table routes eni false out).1 q
  unfolding sync_described
  described-preserves routes b (err e, w₁) q g = g
  described-preserves routes b (ok [], w₁) q g = g
  described-preserves routes b (ok (rs ∷ rest), w₁) q g =
      sync_routes-Points api f table eni (index rs []) routes start w₁ q b g

  -- A route of any table that goes to the interface goes there after the run.
  pub sync_table-preserves :
      (routes : List Prefix) (b : All IsReadBack routes) (w : World) (u : Text) (q : Prefix)
      → targets eni (view w u q) ≡ true
      → targets eni (view (sync_table api table routes eni false w).1 u q) ≡ true
  unfolding sync_table
  sync_table-preserves routes b w u q g = elim (text_eq.dec table u) [
    | yes e ↦
        subst (λ x. targets eni (view (sync_table api table routes eni false w).1 x q) ≡ true) e
          (described-preserves routes b (describe_route_tables table w) q
            (rw f.describe_keeps (subst (λ x. targets eni (view w x q) ≡ true) (sym e) g)))
    | no n ↦ rw (sync_table-keeps routes b w u q (ground arith)) g
  ]

  -- If a run that is not a dry run reports no error, then each route of the list is in the table,
  -- goes to the interface and is active, for an API that does what EC2 documents and prefixes that
  -- are read back from their text.
  pub sync_table-GoesTo :
      (routes : List Prefix) (b : All IsReadBack routes) (w : World) (cs : List Change) (w' : World)
      (q : Prefix)
      → sync_table api table routes eni false w ≡ ((cs, none), w')
      → contains routes q ≡ true
      → GoesTo eni (view w' table q)
  sync_table-GoesTo routes b w cs w' q h m =
      GoesTo-targets eni (view w' table q) (sync_table-Points routes b w cs w' q h m)

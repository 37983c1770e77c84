-- ===== src/Aws/Tables.antt =====
-- internal/cloud/aws/aws.go: `Sync`, over all tables, and the interface that the routes go to.
use cloud_route_manager.Base.{
  ◌≡◌, refl, ap, ◌∙◌, Text, text_eq, true, false, List, [], ◌∷◌, arith, sym, none, some, contains,
  is_empty, All, subst, wrapf, length, length-append,
}
use mathlib.Core.List.{append-nil}
use cloud_route_manager.Aws.Effects.{join-eq-none}
use cloud_route_manager.Base.{Result, ok, err}
use cloud_route_manager.Cloud.{Change}
use cloud_route_manager.Aws.{start}
use cloud_route_manager.Netip.{Addr, Prefix, prefix_eq, IsReadBack}
use cloud_route_manager.Cloud.{Report}
use cloud_route_manager.Aws.{
  Ec2, Progress, sync_table, sync_tables, add_table, network_interface_id, sync, sync_to, targets,
}
use cloud_route_manager.Aws.Service.{IsFaithful, GoesTo, GoesTo-targets}
use cloud_route_manager.Aws.Runs.{sync_table-Points, sync_table-preserves}

errs-add_table :
    (t : Text) (st : Progress) (r : Report)
    → (add_table t st r).errs ≡ []
    → (st.errs ≡ []) × (r.1 ≡ none)
errs-add_table t st (cs, none) h = (sym (append-nil st.errs) ∙ h, refl)
errs-add_table t st (cs, some e) h =
    absurd (
      omega
        (arith, ap length h, length-append st.errs (wrapf "route table %s: %w" (t ∷ []) e ∷ [])))

module _ (api : Ec2) (f : IsFaithful api) (routes : List Prefix) (d : All IsReadBack routes)
    (eni : Text) where
  open api use {World}
  open f use {view}

  abbrev Points : World → Text → Prefix → Type 0
  Points w u q = targets eni (view w u q) ≡ true

  sync_tables-preserves :
      (ts : List Text) (st : Progress) (w : World) (u : Text) (q : Prefix)
      → Points w u q
      → Points (sync_tables api ts routes eni false st w).1 u q
  unfolding sync_tables
  sync_tables-preserves [] st w u q g = g
  sync_tables-preserves (t ∷ ts) st w u q g =
      sync_tables-preserves ts _ _ u q (sync_table-preserves api f t eni routes d w u q g)

  sync_tables-errs :
      (ts : List Text) (st : Progress) (w : World)
      → (sync_tables api ts routes eni false st w).0.errs ≡ []
      → st.errs ≡ []
  unfolding sync_tables
  sync_tables-errs [] st w h = h
  sync_tables-errs (t ∷ ts) st w h =
      (errs-add_table t st (sync_table api t routes eni false w).0 (sync_tables-errs ts _ _ h)).0

  pub sync_tables-Points :
      (ts : List Text) (st : Progress) (w : World) (u : Text) (q : Prefix)
      → (sync_tables api ts routes eni false st w).0.errs ≡ []
      → contains ts u ≡ true
      → contains routes q ≡ true
      → targets eni (view (sync_tables api ts routes eni false st w).1 u q) ≡ true
  unfolding sync_tables
  sync_tables-Points [] st w u q h m k = cc m
  sync_tables-Points (t ∷ ts) st w u q h m k = elim (text_eq.dec t u) [
    | yes e ↦
        let (r, w') = sync_table api t routes eni false w in
        sync_tables-preserves ts _ _ u q (
          subst (λ x. Points w' x q) e
            (sync_table-Points api f t eni routes d w r.0 w' q
              (ap (λ o. ((r.0, o), w')) (errs-add_table t st r (sync_tables-errs ts _ _ h)).1) k))
    | no n ↦ sync_tables-Points ts _ _ u q h (ground arith) k
  ]

  -- If a real `Sync` has no error for any table, then in every table of its list every route of its
  -- list is there, goes to the interface and is active, for an API that does what EC2 documents and
  -- prefixes that are read back from their text.
  pub sync_tables-GoesTo :
      (ts : List Text) (st : Progress) (w : World) (u : Text) (q : Prefix)
      → (sync_tables api ts routes eni false st w).0.errs ≡ []
      → contains ts u ≡ true
      → contains routes q ≡ true
      → GoesTo eni (view (sync_tables api ts routes eni false st w).1 u q)
  sync_tables-GoesTo ts st w u q h m k = GoesTo-targets eni _ (sync_tables-Points ts st w u q h m k)

-- The interface that is found is cached.
found-cached :
    (api : Ec2) (cached : Text) (a : Addr) (w : api.World) (eni : Text)
    → (network_interface_id api cached a w).0 ≡ ok eni
    → (network_interface_id api cached a w).1 ≡ eni
unfolding network_interface_id
found-cached api cached a w eni h = ground arith

module _ (api : Ec2) (f : IsFaithful api) (routes : List Prefix) (d : All IsReadBack routes) where
  open api use {World}
  open f use {view}

  sync_to-GoesTo :
      (tables : List Text) (out : Result Text × Text × World) (cs : List Change) (eni : Text)
      (w' : World) (u : Text) (q : Prefix)
      → ((id : Text) → out.0 ≡ ok id → out.1 ≡ id)
      → sync_to api tables routes false out ≡ ((cs, none), eni, w')
      → contains tables u ≡ true
      → contains routes q ≡ true
      → GoesTo eni (view w' u q)
  unfolding sync_to
  sync_to-GoesTo tables (err e, cached, w) cs eni w' u q c h m k = cc h
  sync_to-GoesTo tables (ok id, cached, w) cs eni w' u q c h m k =
      let st = sync_tables api tables routes id false start w in
      subst (λ x. GoesTo x (view w' u q)) (sym (c id refl) ∙ ap (λ r. r.1) h)
        (subst (λ x. GoesTo id (view x u q)) (ap (λ r. r.2) h)
          (sync_tables-GoesTo api f routes d id tables start w u q
            (join-eq-none st.0.errs (ap (λ r. r.0.1) h)) m k))

  -- If a real `Sync` reports no error, then in every table of its list every route of its list is
  -- there, goes to the interface that is cached from then on and is active, for an API that does
  -- what EC2 documents and prefixes that are read back from their text.
  pub sync-GoesTo :
      (cached : Text) (tables : List Text) (a : Addr) (w : World) (cs : List Change) (eni : Text)
      (w' : World) (u : Text) (q : Prefix)
      → sync api cached tables routes a false w ≡ ((cs, none), eni, w')
      → contains tables u ≡ true
      → contains routes q ≡ true
      → GoesTo eni (view w' u q)
  unfolding sync
  sync-GoesTo cached tables a w cs eni w' u q h m k =
      sync_to-GoesTo tables (network_interface_id api cached a w) cs eni w' u q
        (found-cached api cached a w) h m k

  -- A cached interface that is not empty is used as it is, and stays cached.
  cached-id :
      (cached : Text) (tables : List Text) (a : Addr) (w w' : World) (cs : List Change) (eni : Text)
      → is_empty cached ≡ false
      → sync api cached tables routes a false w ≡ ((cs, none), eni, w')
      → eni ≡ cached
  unfolding sync sync_to network_interface_id
  cached-id [] tables a w w' cs eni n h = cc n
  cached-id (c ∷ cached) tables a w w' cs eni n h = sym (ap (λ r. r.1) h)

  -- Once an interface is cached, a real `Sync` that reports no error leaves every route of its list, in
  -- every table of its list, there, active and going to that interface, whatever address it is given, and
  -- the interface stays cached. This is for an API that does what EC2 documents and prefixes that are
  -- read back from their text.
  pub sync-cached :
      (cached : Text) (tables : List Text) (a : Addr) (w w' : World) (cs : List Change) (eni : Text)
      → is_empty cached ≡ false
      → sync api cached tables routes a false w ≡ ((cs, none), eni, w')
      → (eni ≡ cached)
        × ((u : Text) (q : Prefix)
            → contains tables u ≡ true
            → contains routes q ≡ true
            → GoesTo cached (view w' u q))
  sync-cached cached tables a w w' cs eni n h =
      let same = cached-id cached tables a w w' cs eni n h in
      (
        same,
        λ u q m k.
            subst (λ x. GoesTo x (view w' u q)) same
              (sync-GoesTo cached tables a w cs eni w' u q h m k),
      )

-- ===== src/Aws/Effects.antt =====
-- internal/cloud/aws/aws.go: what the calls of the loop over the routes leave in the tables.
use Prim.Native.String.{String}
use cloud_route_manager.Base.{
  subst, length, length-append, All, ◌≡◌, refl, ap, ◌∙◌, sym, Text, text_eq, Bool, true, false,
  ◌&&◌, List, [], ◌∷◌, arith, ◌==◌, Option, none, some, Error, Result, ok, err, Bool-cases, inl,
  inr, contains, join,
}
use cloud_route_manager.Base.Maps.{Map, lookup}
use cloud_route_manager.Netip.{Prefix, prefix_eq, IsReadBack}
use cloud_route_manager.Cloud.{Change}
use cloud_route_manager.Aws.{
  Route, Ec2, Progress, note, sync_route, sync_routes, attempt, targets, route_input,
}
use cloud_route_manager.Aws.Service.{IsFaithful, targets_of_GoesTo}

abbrev pub is_ok : {A : Type 0} → Result A → Bool
is_ok (ok c) = true
is_ok (err e) = false

errs-note :
    (st : Progress) (r : Result Change) → (note st r).errs ≡ [] → (st.errs ≡ []) × (is_ok r ≡ true)
unfolding note
errs-note st (ok c) h = (h, refl)
errs-note st (err e) h = absurd (omega (arith, ap length h, length-append st.errs (e ∷ [])))

pub join-eq-none : (es : List Error) → join es ≡ none → es ≡ []
join-eq-none [] h = refl
join-eq-none (e ∷ es) h = cc h

module _ (api : Ec2) (f : IsFaithful api) (table eni : Text) where
  open api use {World, describe_route_tables}
  open f use {view}

  -- Routes of other tables, and of other prefixes, stay.
  sync_route-keeps :
      (p : Prefix) (o : Option Route) (w : World) (u : Text) (q : Prefix)
      → IsReadBack p
      → (table == u && p == q) ≡ false
      → view (sync_route api table eni false p o w).1 u q ≡ view w u q
  unfolding sync_route attempt
  sync_route-keeps p none w u q b h = f.create_keeps table eni p w u q b h
  sync_route-keeps p (some r) w u q b h = elim (Bool-cases (targets eni (some r))) [
    | inl e ↦ rw e refl
    | inr e ↦ rw e (f.replace_keeps table eni p w u q b h)
  ]

  pub sync_routes-keeps :
      (existing : Map Prefix Route) (ps : List Prefix) (st : Progress) (w : World) (u : Text)
      (q : Prefix)
      → All IsReadBack ps
      → (table == u && contains ps q) ≡ false
      → view (sync_routes api table eni false existing ps st w).1 u q ≡ view w u q
  unfolding sync_routes
  sync_routes-keeps existing [] st w u q b h = refl
  sync_routes-keeps existing (p ∷ ps) st w u q b h =
      let (r, w') = sync_route api table eni false p (lookup p existing) w in
      sync_routes-keeps existing ps (note st r) w' u q b.1 (ground arith)
      ∙ sync_route-keeps p (lookup p existing) w u q b.0 (ground arith)

  abbrev pub Points : World → Prefix → Type 0
  Points w p = targets eni (view w table p) ≡ true

  -- A call that succeeds has sent the route of `p` to the interface, and one that fails has not
  -- touched the route of `q`.
  abbrev IsWrite : Prefix → World → Result (Unit {0}) × World → Type 0
  IsWrite p w (ok u, w') = Points w' p
  IsWrite p w (err e, w') = (q : Prefix) → view w' table q ≡ view w table q

  create-IsWrite :
      (p : Prefix) (w : World)
      → IsReadBack p
      → IsWrite p w (api.create_route (route_input table eni p) w)
  create-IsWrite p w b = go (api.create_route (route_input table eni p) w) refl
    where
      go :
          (r : Result (Unit {0}) × World)
          → api.create_route (route_input table eni p) w ≡ r
          → IsWrite p w r
      go (ok tt, w') e = targets_of_GoesTo eni _ (f.create_sets table eni p w w' b e)
      go (err e', w') e = λ q. f.create_fails table eni p w w' e' table q e

  replace-IsWrite :
      (p : Prefix) (w : World)
      → IsReadBack p
      → IsWrite p w (api.replace_route (route_input table eni p) w)
  replace-IsWrite p w b = go (api.replace_route (route_input table eni p) w) refl
    where
      go :
          (r : Result (Unit {0}) × World)
          → api.replace_route (route_input table eni p) w ≡ r
          → IsWrite p w r
      go (ok tt, w') e = targets_of_GoesTo eni _ (f.replace_sets table eni p w w' b e)
      go (err e', w') e = λ q. f.replace_fails table eni p w w' e' table q e

  attempt-makes :
      (form : String) (t : Text) (c : Change) (p : Prefix) (w : World)
      (r : Result (Unit {0}) × World)
      → IsWrite p w r
      → is_ok (attempt api form t c r).0 ≡ true
      → Points (attempt api form t c r).1 p
  unfolding attempt
  attempt-makes form t c p w (ok u, w') k h = k
  attempt-makes form t c p w (err e, w') k h = cc h

  attempt-keeps :
      (form : String) (t : Text) (c : Change) (p : Prefix) (w : World)
      (r : Result (Unit {0}) × World)
      → IsWrite p w r
      → Points w p
      → Points (attempt api form t c r).1 p
  unfolding attempt
  attempt-keeps form t c p w (ok u, w') k g = k
  attempt-keeps form t c p w (err e, w') k g = rw (k p) g

  sync_route-makes :
      (p : Prefix) (o : Option Route) (w : World)
      → IsReadBack p
      → (targets eni o ≡ true → Points w p)
      → is_ok (sync_route api table eni false p o w).0 ≡ true
      → Points (sync_route api table eni false p o w).1 p
  unfolding sync_route
  sync_route-makes p none w b g h = attempt-makes _ _ _ p w _ (create-IsWrite p w b) h
  sync_route-makes p (some r) w b g h = elim (Bool-cases (targets eni (some r))) [
    | inl e ↦ rw e (g e)
    | inr e ↦ rw e (attempt-makes _ _ _ p w _ (replace-IsWrite p w b) (rw e at h))
  ]

  sync_route-Points_same :
      (p : Prefix) (o : Option Route) (w : World)
      → IsReadBack p
      → Points w p
      → Points (sync_route api table eni false p o w).1 p
  unfolding sync_route
  sync_route-Points_same p none w b g = attempt-keeps _ _ _ p w _ (create-IsWrite p w b) g
  sync_route-Points_same p (some r) w b g = elim (Bool-cases (targets eni (some r))) [
    | inl e ↦ rw e g
    | inr e ↦ rw e (attempt-keeps _ _ _ p w _ (replace-IsWrite p w b) g)
  ]

  -- A route that goes to the interface goes on doing so.
  sync_route-Points :
      (p : Prefix) (o : Option Route) (w : World) (q : Prefix)
      → IsReadBack p
      → Points w q
      → Points (sync_route api table eni false p o w).1 q
  sync_route-Points p o w q b g = elim (prefix_eq.dec p q) [
    | yes e ↦
        subst (λ x. Points (sync_route api table eni false p o w).1 x) e
          (sync_route-Points_same p o w b (subst (Points w) (sym e) g))
    | no n ↦ rw (sync_route-keeps p o w table q b (ground arith)) g
  ]

  pub sync_routes-Points :
      (existing : Map Prefix Route) (ps : List Prefix) (st : Progress) (w : World) (q : Prefix)
      → All IsReadBack ps
      → Points w q
      → Points (sync_routes api table eni false existing ps st w).1 q
  unfolding sync_routes
  sync_routes-Points existing [] st w q b g = g
  sync_routes-Points existing (p ∷ ps) st w q b g =
      sync_routes-Points existing ps _ _ q b.1 (sync_route-Points p (lookup p existing) w q b.0 g)

  -- Errors that have been noted stay.
  sync_routes-errs :
      (existing : Map Prefix Route) (ps : List Prefix) (st : Progress) (w : World)
      → (sync_routes api table eni false existing ps st w).0.errs ≡ []
      → st.errs ≡ []
  unfolding sync_routes
  sync_routes-errs existing [] st w h = h
  sync_routes-errs existing (p ∷ ps) st w h =
      (errs-note st _ (sync_routes-errs existing ps _ _ h)).0

  pub sync_routes-makes :
      (existing : Map Prefix Route) (ps : List Prefix) (st : Progress) (w : World) (q : Prefix)
      → All IsReadBack ps
      → ((p : Prefix) → targets eni (lookup p existing) ≡ true → Points w p)
      → (sync_routes api table eni false existing ps st w).0.errs ≡ []
      → contains ps q ≡ true
      → Points (sync_routes api table eni false existing ps st w).1 q
  unfolding sync_routes
  sync_routes-makes existing [] st w q b g h m = cc m
  sync_routes-makes existing (p ∷ ps) st w q b g h m = elim (prefix_eq.dec p q) [
    | yes e ↦ sync_routes-Points existing ps _ _ q b.1 (
        subst (λ x. Points (sync_route api table eni false p (lookup p existing) w).1 x) e
          (sync_route-makes p (lookup p existing) w b.0 (g p)
            (errs-note st _ (sync_routes-errs existing ps _ _ h)).1))
    | no n ↦
        sync_routes-makes existing ps _ _ q b.1
          (λ x k. sync_route-Points p (lookup p existing) w x b.0 (g x k)) h (ground arith)
  ]

-- ===== src/App/Running.antt =====
-- internal/app/app.go: which cycles return, of a service that `New` has made.
use cloud_route_manager.Base.{
  ◌≡◌, refl, ap, sym, subst, Bool, true, false, not, ◌||◌, List, [], ◌∷◌, arith, Option, none, some,
  Error, Result, ok, err, is_empty, ok-injective, length, if◌then◌else◌,
}
use cloud_route_manager.Config.{Config}
use cloud_route_manager.LocalRoutes.Specs.{Spec, parse_specs}
use cloud_route_manager.LocalRoutes.Specs.Laws.{parse_specs-All}
use cloud_route_manager.Source.{Source, Clients, build}
use cloud_route_manager.App.{
  Primary, Outcome, returns, panics, nil_pointer, manager, new_local, Machine, App, with_specs,
  with_sources, new_app, sync_local, Cycle, behind_detect, cycle, after_cycle, run_once,
}

-- There are local routes to keep, or to remove.
abbrev pub has_local_work : Config → Bool
has_local_work cfg = not (is_empty cfg.local_static_routes) || cfg.general.remove_stale_local_routes

empty_of_length :
    {A B : Type 0} → (xs : List A) (ys : List B) → length xs ≡ length ys → is_empty xs ≡ is_empty ys
empty_of_length [] [] h = refl
empty_of_length [] (y ∷ ys) h = absurd (omega (arith, h))
empty_of_length (x ∷ xs) [] h = absurd (omega (arith, h))
empty_of_length (x ∷ xs) (y ∷ ys) h = refl

module _ (World : Type 0) where
  -- What a service made from the configuration has in its field `local`.
  abbrev pub IsMade : Config → App World → Type 0
  IsMade cfg a = (a.cfg ≡ cfg) × (a.local ≡ (if has_local_work cfg then manager else nil_pointer))

  with_specs-IsMade :
      (cfg : Config) (sources : List (Source World)) (r : Result (List Spec)) (a : App World)
      → parse_specs cfg.local_static_routes ≡ r
      → with_specs World cfg sources r ≡ ok a
      → IsMade cfg a
  unfolding new_local
  with_specs-IsMade cfg sources (err e) a p h = cc h
  with_specs-IsMade cfg sources (ok specs) a p h =
      let same = empty_of_length specs cfg.local_static_routes (parse_specs-All _ specs p).0 in
      subst (IsMade cfg) (ok-injective h) (
        refl,
        ap (λ b. if not b || cfg.general.remove_stale_local_routes then manager else nil_pointer)
            same,
      )

  with_sources-IsMade :
      (cfg : Config) (r : Result (List (Source World))) (a : App World)
      → with_sources World cfg r ≡ ok a
      → IsMade cfg a
  with_sources-IsMade cfg (err e) a h = cc h
  with_sources-IsMade cfg (ok sources) a h = with_specs-IsMade cfg sources _ a refl h

  new_app-IsMade :
      (clients : Clients World) (cfg : Config) (a : App World)
      → new_app World clients cfg ≡ ok a
      → IsMade cfg a
  unfolding new_app
  new_app-IsMade clients cfg a h = with_sources-IsMade cfg (build World clients cfg.source) a h

  module _ (m : Machine World) where
    open m use {detect}

    -- The states that a service passes through, cycle after cycle.
    pub data Passes (a : App World) (w : World) : App World → World → Type 0 where
      start : Passes a w a w
      next :
          {b b' : App World} {v v' : World} {e : Option Error}
          → Passes a w b v
          → run_once World m b v ≡ returns (e, b', v')
          → Passes a w b' v'

    pub after_cycle-App :
        (a : App World) (o : Outcome (Cycle × World)) (e : Option Error) (a' : App World)
        (w' : World)
        → after_cycle World m a o ≡ returns (e, a', w')
        → record a { first_cycle = false } ≡ a'
    after_cycle-App a panics e a' w' h = cc h
    after_cycle-App a (returns (c, v)) e a' w' h = cc h

    Passes-IsMade :
        (cfg : Config) (a : App World) (w : World) (b : App World) (v : World)
        → IsMade cfg a
        → Passes a w b v
        → IsMade cfg b
    unfolding run_once
    Passes-IsMade cfg a w _ _ k start = k
    Passes-IsMade cfg a w _ _ k (next {b} {b'} {v} {v'} {e} p h) =
        subst (IsMade cfg) (after_cycle-App b (cycle World m b v) e b' v' h)
          (Passes-IsMade cfg a w b v k p)

    -- A value that is returned.
    abbrev pub Returns : Outcome (Option Error × App World × World) → Type 0
    Returns o = (r : Option Error × App World × World) × (o ≡ returns r)

    Returns-after_cycle :
        (a : App World) (r : (Primary × Option Error) × World)
        → a.local ≡ manager
        → Returns (after_cycle World m a (behind_detect World m a r))
    unfolding sync_local
    Returns-after_cycle a ((primary, some e), w) l = (_, refl)
    Returns-after_cycle a ((primary, none), w) l = rw l (_, refl)

    after_cycle_panics :
        (a : App World) (r : (Primary × Option Error) × World)
        → a.local ≡ nil_pointer
        → r.0.1 ≡ none
        → after_cycle World m a (behind_detect World m a r) ≡ panics
    unfolding sync_local
    after_cycle_panics a ((primary, some e), w) l d = cc d
    after_cycle_panics a ((primary, none), w) l d = rw l refl

    -- A service that `New` has made of a configuration that has local routes, or removes stale ones,
    -- returns from every cycle that it comes to, whatever its managers and its sources answer.
    pub Returns-run_once :
        (clients : Clients World) (cfg : Config) (a b : App World) (w v : World)
        → new_app World clients cfg ≡ ok a
        → has_local_work cfg ≡ true
        → Passes a w b v
        → Returns (run_once World m b v)
    unfolding run_once cycle
    Returns-run_once clients cfg a b w v h l p =
        let (c, f) = Passes-IsMade cfg a w b v (new_app-IsMade clients cfg a h) p in
        Returns-after_cycle b (detect b.cfg.general.interface b.cfg.general.ip_address v)
          (rw l at f)

    -- A service that `New` has made of a configuration without local routes that does not remove
    -- stale ones panics in each cycle that it comes to and in which the primary interface is
    -- detected.
    pub run_once_panics :
        (clients : Clients World) (cfg : Config) (a b : App World) (w v : World)
        → new_app World clients cfg ≡ ok a
        → has_local_work cfg ≡ false
        → Passes a w b v
        → (detect cfg.general.interface cfg.general.ip_address v).0.1 ≡ none
        → run_once World m b v ≡ panics
    unfolding run_once cycle
    run_once_panics clients cfg a b w v h l p d =
        let (c, f) = Passes-IsMade cfg a w b v (new_app-IsMade clients cfg a h) p in
        after_cycle_panics b (detect b.cfg.general.interface b.cfg.general.ip_address v) (rw l at f)
          (subst (λ (x : Config). (detect x.general.interface x.general.ip_address v).0.1 ≡ none)
            (sym c) d)

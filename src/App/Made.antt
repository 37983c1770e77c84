-- ===== src/App/Made.antt =====
-- internal/app/app.go: a cycle of a service that `New` has made, from its configuration on.
use cloud_route_manager.Base.{
  ◌≡◌, refl, ap, ◌∙◌, subst, Text, text_eq, Bool, true, false, List, [], ◌∷◌, Option, none, some,
  Error, Result, ok, err, contains, is_empty, All, All-zip, ok-injective,
}
use cloud_route_manager.Netip.{Prefix, prefix_eq, is4, IsReadBack, addr_string}
use cloud_route_manager.Routes.ReadBack.{parse_one-IsReadBack}
use cloud_route_manager.Config.{Config}
use cloud_route_manager.LocalRoutes.Specs.{Spec, parse_specs}
use cloud_route_manager.Aws.{Ec2}
use cloud_route_manager.Aws.Service.{IsFaithful, GoesTo}
use cloud_route_manager.Yandex.{RouteTables, Row}
use cloud_route_manager.Yandex.Stores.{IsStore, SendsTo}
use cloud_route_manager.NetInfo.{Primary}
use cloud_route_manager.Source.{Source, Clients, Fetched, build, collect}
use cloud_route_manager.Source.Building.{collect-All}
use cloud_route_manager.App.{
  Outcome, returns, panics, Machine, App, Cycle, with_specs, with_sources, new_app, sync_local,
  sync_cloud, sync_collected, behind_local, behind_detect, cycle, run_once,
}
use cloud_route_manager.App.Running.{Passes, start, next, after_cycle-App}
use cloud_route_manager.App.Delivery.{Host, with_aws, cycle-GoesTo, with_yandex, cycle-SendsTo}

module _ (World : Type 0) where
  with_specs-sources :
      (cfg : Config) (sources : List (Source World)) (r : Result (List Spec)) (a : App World)
      → with_specs World cfg sources r ≡ ok a
      → (sources ≡ a.sources) × (cfg ≡ a.cfg)
  with_specs-sources cfg sources (err e) a h = cc h
  with_specs-sources cfg sources (ok specs) a h = (
    ap (λ (x : App World). x.sources) (ok-injective h),
    ap (λ (x : App World). x.cfg) (ok-injective h),
  )

  with_sources-sources :
      (cfg : Config) (r : Result (List (Source World))) (a : App World)
      → with_sources World cfg r ≡ ok a
      → (r ≡ ok a.sources) × (cfg ≡ a.cfg)
  with_sources-sources cfg (err e) a h = cc h
  with_sources-sources cfg (ok sources) a h =
      let (s, c) = with_specs-sources cfg sources (parse_specs cfg.local_static_routes) a h in
      (ap (λ x. ok x) s, c)

  new_app-sources :
      (clients : Clients World) (cfg : Config) (a : App World)
      → new_app World clients cfg ≡ ok a
      → (build World clients cfg.source ≡ ok a.sources) × (cfg ≡ a.cfg)
  unfolding new_app
  new_app-sources clients cfg a h = with_sources-sources cfg _ a h

  module _ (m : Machine World) where
    -- A service keeps its configuration and its sources.
    Passes-sources :
        (a : App World) (w : World) (b : App World) (v : World)
        → Passes World m a w b v
        → (a.sources ≡ b.sources) × (a.cfg ≡ b.cfg)
    unfolding run_once
    Passes-sources a w _ _ start = (refl, refl)
    Passes-sources a w _ _ (next {b} {b'} {v} {v'} {e} p h) =
        let (s, c) = Passes-sources a w b v p in
        let same = after_cycle-App World m b (cycle World m b v) e b' v' h in
        (s ∙ ap (λ (x : App World). x.sources) same, c ∙ ap (λ (x : App World). x.cfg) same)

    module _ (P : Prefix → Type 0) (a : App World)
        (sound : (w : World) → All P (collect World a.sources w).0.0) where
      collected-All :
          (p : Primary) (g : Fetched × World)
          → All P g.0.0
          → All P (sync_collected World m a p g).0.0
      unfolding sync_collected
      collected-All p (([], some e), w) h = tt
      collected-All p (([], none), w) h = tt
      collected-All p ((x ∷ xs, e), w) h = h

      abbrev Has : Outcome (Cycle × World) → Type 0
      Has panics = Unit
      Has (returns (c, w)) = All P c.prefixes

      behind_local-Has :
          (p : Primary) (o : Outcome ((Bool × Option Error) × World))
          → Has (behind_local World m a p o)
      unfolding sync_cloud
      behind_local-Has p panics = tt
      behind_local-Has p (returns ((changed, e), w)) =
          collected-All p (collect World a.sources w) (sound w)

      behind_detect-Has : (r : (Primary × Option Error) × World) → Has (behind_detect World m a r)
      behind_detect-Has ((p, some e), w) = tt
      behind_detect-Has ((p, none), w) = behind_local-Has p (sync_local World m a w)

      -- The prefixes of a cycle have what the collected prefixes have.
      pub cycle-All :
          (w w' : World) (c : Cycle) → cycle World m a w ≡ returns (c, w') → All P c.prefixes
      unfolding cycle
      cycle-All w w' c h =
          subst Has h
            (behind_detect-Has (m.detect a.cfg.general.interface a.cfg.general.ip_address w))

  module _ (m : Machine World) (clients : Clients World) (cfg : Config) (a b : App World)
      (w v : World) (made : new_app World clients cfg ≡ ok a)
      (passes : Passes World m a w b v) where
    -- The configuration of a service that has come so far.
    pub made-cfg : cfg ≡ b.cfg
    made-cfg = (new_app-sources clients cfg a made).1 ∙ (Passes-sources m a w b v passes).1

    -- Its IPv4 prefixes are read back from their text.
    pub made-IsReadBack :
        (c : Cycle) (v' : World)
        → cycle World m b v ≡ returns (c, v')
        → All (λ p. is4 p.addr ≡ true) c.prefixes
        → All IsReadBack c.prefixes
    made-IsReadBack c v' h k =
        let built =
          (new_app-sources clients cfg a made).0
          ∙ ap (λ s. ok s) (Passes-sources m a w b v passes).0 in
        All-zip _ _ IsReadBack (λ p f g. f g) c.prefixes
          (cycle-All m (λ p. is4 p.addr ≡ true → IsReadBack p) b
            (λ u. collect-All World _ parse_one-IsReadBack clients cfg.source b.sources u built) v
            v' c h)
          k

module _ (api : Ec2) (f : IsFaithful api) (m : Machine (Host api)) where
  open f use {view}

  -- A service is made by `New` of a configuration that is no dry run, and has come through any number
  -- of cycles. If its next cycle on AWS ends without an error and its prefixes are IPv4, then in each
  -- table of the configuration each of these prefixes is there, goes to the interface that the
  -- manager has cached and is active. This is for an API that does what EC2 documents, and for any
  -- answers of the sources' clients, of ip(8) and of the kernel.
  pub cycle_made-GoesTo :
      (clients : Clients (Host api)) (cfg : Config) (a b : App (Host api)) (w v v' : Host api)
      (c : Cycle) (u : Text) (q : Prefix)
      → new_app (Host api) clients cfg ≡ ok a
      → Passes (Host api) (with_aws api m) a w b v
      → cfg.general.dry_run ≡ false
      → cycle (Host api) (with_aws api m) b v ≡ returns (c, v')
      → c.error ≡ none
      → All (λ p. is4 p.addr ≡ true) c.prefixes
      → contains cfg.route_table_ids u ≡ true
      → contains c.prefixes q ≡ true
      → GoesTo v'.0 (view v'.1 u q)
  cycle_made-GoesTo clients cfg a b w v v' c u q made passes real h e four k l =
      let same = made-cfg (Host api) (with_aws api m) clients cfg a b w v made passes in
      cycle-GoesTo api f m b (subst (λ (x : Config). x.general.dry_run ≡ false) same real) v v' c u
        q h e
        (made-IsReadBack (Host api) (with_aws api m) clients cfg a b w v made passes c v' h four)
        (subst (λ (x : Config). contains x.route_table_ids u ≡ true) same k) l

module _ (api : RouteTables) (Holds : api.World → Text → List Row → Type 0) (f : IsStore api Holds)
    (m : Machine api.World) where
  open api use {World}

  -- A service is made by `New` of a configuration that is no dry run, and has come through any number
  -- of cycles. If its next cycle on Yandex Cloud ends without an error, its prefixes are IPv4 and the
  -- text of the interface's address is not empty, then each table of the configuration has rows of
  -- which the first one for each of these prefixes goes to that address. This is for a service that
  -- gives its tables back as they were sent and keeps them apart (`IsStore`), and for any answers of
  -- the sources' clients, of ip(8) and of the kernel.
  pub cycle_made-SendsTo :
      (clients : Clients World) (cfg : Config) (a b : App World) (w v v' : World) (c : Cycle)
      (u : Text) (q : Prefix)
      → new_app World clients cfg ≡ ok a
      → Passes World (with_yandex api m) a w b v
      → cfg.general.dry_run ≡ false
      → cycle World (with_yandex api m) b v ≡ returns (c, v')
      → c.error ≡ none
      → All (λ p. is4 p.addr ≡ true) c.prefixes
      → is_empty (addr_string c.primary.ip) ≡ false
      → contains cfg.route_table_ids u ≡ true
      → contains c.prefixes q ≡ true
      → SendsTo api Holds (addr_string c.primary.ip) v' u q
  cycle_made-SendsTo clients cfg a b w v v' c u q made passes real h e four n k l =
      let same = made-cfg World (with_yandex api m) clients cfg a b w v made passes in
      cycle-SendsTo api Holds f m b (subst (λ (x : Config). x.general.dry_run ≡ false) same real) v
        v' c u q
        (made-IsReadBack World (with_yandex api m) clients cfg a b w v made passes c v' h four) n h
        e (subst (λ (x : Config). contains x.route_table_ids u ≡ true) same k) l

-- ===== src/App/Delivery.antt =====
-- internal/app/app.go with internal/cloud/aws/aws.go: a cycle whose cloud manager is that of AWS; and
-- with internal/cloud/yandex/routes.go: one whose cloud manager is that of Yandex Cloud.
use cloud_route_manager.Base.{
  ◌≡◌, ap, Text, text_eq, true, false, Bool, List, none, contains, All, is_empty,
}
use cloud_route_manager.Netip.{Addr, Prefix, prefix_eq, IsReadBack, addr_string}
use cloud_route_manager.Cloud.{aws, yandex}
use cloud_route_manager.Aws.{Ec2, sync}
use cloud_route_manager.Aws.Service.{IsFaithful, GoesTo}
use cloud_route_manager.Aws.Tables.{sync-GoesTo}
use cloud_route_manager.Yandex
use cloud_route_manager.Yandex.{RouteTables, Row}
use cloud_route_manager.Yandex.Stores.{IsStore, SendsTo, sync-SendsTo}
use cloud_route_manager.App.{returns, Machine, App, Cycle, cycle}
use cloud_route_manager.App.Errorless.{cycle-Stands}

module _ (api : Ec2) where
  -- The world of the program with the interface that its manager has cached.
  abbrev pub Host : Type 0
  Host = Text × api.World

  -- A machine with the manager of AWS.
  abbrev pub with_aws : Machine Host → Machine Host
  with_aws m = record m {
    provider = aws;
    cloud_sync = λ tables routes hop dry w.
        let (r, cached, w') = sync api w.0 tables routes hop dry w.1 in (r, (cached, w'));
  }

  module _ (f : IsFaithful api) (m : Machine Host) (a : App Host)
      (real : a.cfg.general.dry_run ≡ false) where
    open f use {view}

    -- In each table of the configuration each of the routes goes to the cached interface.
    abbrev Stand : List Prefix → Addr → Host → Type 0
    Stand routes hop w =
        (u : Text) (q : Prefix)
        → contains a.cfg.route_table_ids u ≡ true
        → contains routes q ≡ true
        → GoesTo w.0 (view w.1 u q)

    sync-Stand :
        (routes : List Prefix) (hop : Addr) (w : Host) (dry : Bool)
        → dry ≡ false
        → All IsReadBack routes
        → (sync api w.0 a.cfg.route_table_ids routes hop dry w.1).0.1 ≡ none
        → Stand routes hop (
          (sync api w.0 a.cfg.route_table_ids routes hop dry w.1).1,
          (sync api w.0 a.cfg.route_table_ids routes hop dry w.1).2,
        )
    sync-Stand routes hop w true d b h u q k l = cc d
    sync-Stand routes hop w false d b h u q k l =
        let s = sync api w.0 a.cfg.route_table_ids routes hop false w.1 in
        sync-GoesTo api f routes b w.0 a.cfg.route_table_ids hop w.1 s.0.0 s.1 s.2 u q
          (ap (λ o. ((s.0.0, o), s.1, s.2)) h) k l

    -- If a real cycle on AWS ends without an error, then in each table of the configuration each
    -- prefix of the cycle is there, goes to the interface that the manager has cached and is active,
    -- for an API that does what EC2 documents and prefixes that are read back from their text.
    pub cycle-GoesTo :
        (w w' : Host) (c : Cycle) (u : Text) (q : Prefix)
        → cycle Host (with_aws m) a w ≡ returns (c, w')
        → c.error ≡ none
        → All IsReadBack c.prefixes
        → contains a.cfg.route_table_ids u ≡ true
        → contains c.prefixes q ≡ true
        → GoesTo w'.0 (view w'.1 u q)
    cycle-GoesTo w w' c u q h e b k l =
        cycle-Stands Host (with_aws m) a Stand
          (λ routes hop w d h. sync-Stand routes hop w a.cfg.general.dry_run real d h) w w' c h e b
          u q k l

module _ (api : RouteTables) where
  open api use {World}

  -- A machine with the manager of Yandex Cloud.
  abbrev pub with_yandex : Machine World → Machine World
  with_yandex m = record m {
    provider = yandex;
    cloud_sync = λ tables routes hop dry w. Yandex.sync api tables routes hop dry w;
  }

  module _ (Holds : World → Text → List Row → Type 0) (f : IsStore api Holds) (m : Machine World)
      (a : App World) (real : a.cfg.general.dry_run ≡ false) where
    -- In each table of the configuration each of the routes goes to the address.
    abbrev Stands : List Prefix → Addr → World → Type 0
    Stands routes hop w =
        (b : All IsReadBack routes) (n : is_empty (addr_string hop) ≡ false) (u : Text) (q : Prefix)
        → contains a.cfg.route_table_ids u ≡ true
        → contains routes q ≡ true
        → SendsTo api Holds (addr_string hop) w u q

    sync-Stands :
        (routes : List Prefix) (hop : Addr) (w : World) (dry : Bool)
        → dry ≡ false
        → (Yandex.sync api a.cfg.route_table_ids routes hop dry w).0.1 ≡ none
        → Stands routes hop (Yandex.sync api a.cfg.route_table_ids routes hop dry w).1
    sync-Stands routes hop w true d h b n u q k l = cc d
    sync-Stands routes hop w false d h b n u q k l =
        sync-SendsTo api Holds f routes hop b n a.cfg.route_table_ids w u q h k l

    -- The same on Yandex Cloud: the first row of each prefix goes to the address of the interface.
    pub cycle-SendsTo :
        (w w' : World) (c : Cycle) (u : Text) (q : Prefix) (b : All IsReadBack c.prefixes)
        (n : is_empty (addr_string c.primary.ip) ≡ false)
        → cycle World (with_yandex m) a w ≡ returns (c, w')
        → c.error ≡ none
        → contains a.cfg.route_table_ids u ≡ true
        → contains c.prefixes q ≡ true
        → SendsTo api Holds (addr_string c.primary.ip) w' u q
    cycle-SendsTo w w' c u q b n h e k l =
        cycle-Stands World (with_yandex m) a Stands
          (λ routes hop w d h. sync-Stands routes hop w a.cfg.general.dry_run real h) w w' c h e b b
          n u q k l

-- ===== src/App/Errorless.antt =====
-- internal/app/app.go: a cycle that ends without an error, and what its cloud manager has done.
use cloud_route_manager.Base.{◌≡◌, refl, subst, Bool, [], ◌∷◌, List, Option, none, some, Error, All}
use cloud_route_manager.Netip.{Addr, Prefix, IsReadBack}
use cloud_route_manager.Source.{Fetched}
use cloud_route_manager.App.{
  Primary, Outcome, returns, panics, Machine, App, Cycle, join_two, sync_local, sync_collected,
  sync_cloud, behind_local, behind_detect, cycle,
}

-- No error of the two halves is lost.
join_two-none : (a b : Option Error) → join_two a b ≡ none → b ≡ none
join_two-none none none h = refl
join_two-none none (some e) h = cc h
join_two-none (some e) none h = cc h
join_two-none (some e) (some e') h = cc h

-- `Stands routes hop w` is what the manager ensures where it reports no error.
module _ (World : Type 0) (m : Machine World) (a : App World)
    (Stands : List Prefix → Addr → World → Type 0)
    (ensured : (routes : List Prefix) (hop : Addr) (w : World)
      → All IsReadBack routes
      → (m.cloud_sync a.cfg.route_table_ids routes hop a.cfg.general.dry_run w).0.1 ≡ none
      → Stands routes hop
          (m.cloud_sync a.cfg.route_table_ids routes hop a.cfg.general.dry_run w).1) where
  collected-Stands :
      (p : Primary) (g : Fetched × World)
      → (sync_collected World m a p g).0.2 ≡ none
      → All IsReadBack (sync_collected World m a p g).0.0
      → Stands (sync_collected World m a p g).0.0 p.ip (sync_collected World m a p g).1
  unfolding sync_collected
  collected-Stands p (([], some e), w) h b = cc h
  collected-Stands p (([], none), w) h b = cc h
  collected-Stands p ((x ∷ xs, e), w) h b = ensured (x ∷ xs) p.ip w b (join_two-none e _ h)

  abbrev Delivers : Outcome (Cycle × World) → Type 0
  Delivers panics = Unit
  Delivers (returns (c, w)) =
      c.error ≡ none → All IsReadBack c.prefixes → Stands c.prefixes c.primary.ip w

  behind_local-Delivers :
      (p : Primary) (o : Outcome ((Bool × Option Error) × World))
      → Delivers (behind_local World m a p o)
  unfolding sync_cloud
  behind_local-Delivers p panics = tt
  behind_local-Delivers p (returns ((changed, e), w)) =
      λ h b. collected-Stands p _ (join_two-none e _ h) b

  behind_detect-Delivers :
      (r : (Primary × Option Error) × World) → Delivers (behind_detect World m a r)
  behind_detect-Delivers ((p, some e), w) = λ h b. cc h
  behind_detect-Delivers ((p, none), w) = behind_local-Delivers p (sync_local World m a w)

  pub cycle-Stands :
      (w w' : World) (c : Cycle)
      → cycle World m a w ≡ returns (c, w')
      → c.error ≡ none
      → All IsReadBack c.prefixes
      → Stands c.prefixes c.primary.ip w'
  unfolding cycle
  cycle-Stands w w' c h e b =
      subst Delivers h
        (behind_detect-Delivers (m.detect a.cfg.general.interface a.cfg.general.ip_address w)) e b

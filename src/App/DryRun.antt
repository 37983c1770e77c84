-- ===== src/App/DryRun.antt =====
-- internal/app/app.go: what a cycle counts as a change in a dry run, and the actions it fires.
use cloud_route_manager.Base.{◌≡◌, true, false}
use cloud_route_manager.App.{Outcome, returns, panics, Machine, App, Cycle}

module _ (World : Type 0) (m : Machine World) (a : App World)
    (dry : a.cfg.general.dry_run ≡ true) where
  -- What is returned has not changed anything.
  abbrev Unchanged : Outcome (Cycle × World) → Type 0
  Unchanged panics = Unit
  Unchanged (returns (c, w)) = c.changed ≡ false

-- ===== src/LocalRoutes.antt =====
-- internal/localroutes: the static routes of the host itself. `Specs` is spec.go, `Manager` is
-- localroutes.go.
pub mod Specs
pub mod Listing
pub mod Manager

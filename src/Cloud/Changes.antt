-- ===== src/Cloud/Changes.antt =====
-- internal/cloud/cloud.go: laws of `Applied`.
use cloud_route_manager.Base.{◌≡◌, refl, true, List, [], ◌∷◌, ◌++◌, arith, All, ◌↔◌}
use cloud_route_manager.Cloud.{Change, is_noop, applied}

pub applied-append : (cs ds : List Change) → applied (cs ++ ds) ≡ applied cs ++ applied ds
unfolding applied
applied-append [] ds = refl
applied-append (c ∷ cs) ds = ground (arith, applied-append cs ds)

-- Nothing is applied exactly if every change is a no-op.
pub applied-eq-nil : (cs : List Change) → (applied cs ≡ []) ↔ All (λ c. is_noop c.action ≡ true) cs
unfolding applied
applied-eq-nil [] = (λ h. tt, λ h. refl)
applied-eq-nil (c ∷ cs) = ground (arith, applied-eq-nil cs)

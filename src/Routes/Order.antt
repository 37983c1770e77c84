-- ===== src/Routes/Order.antt =====
-- internal/routes/routes.go: `Less` as an order.
use cloud_route_manager.Base.{◌≡◌, ◌≢◌, true, false, arith}
use cloud_route_manager.Base.Sorting.{StrictOrder}
use cloud_route_manager.Netip.{
  Prefix, compare_addr-eq, compare_addr-swap, compare_addr_self, compare_addr_trans,
}
use cloud_route_manager.Routes.{less}

less_trans : (a b c : Prefix) → less a b ≡ true → less b c ≡ true → less a c ≡ true
unfolding less
less_trans a b c h k = ground (
  arith,
  compare_addr_trans a.addr b.addr c.addr,
  compare_addr-eq a.addr b.addr,
  compare_addr-eq b.addr c.addr,
)

less_irrefl : (a : Prefix) → less a a ≡ false
unfolding less
less_irrefl a = ground (arith, compare_addr_self a.addr)

less-total : (a b : Prefix) → a ≢ b → less a b ≡ false → less b a ≡ true
unfolding less
less-total a b n h = ground (
  arith,
  compare_addr-swap a.addr b.addr,
  compare_addr-eq a.addr b.addr,
  compare_addr_self a.addr,
)

-- `Less` is irreflexive and transitive, and of two different prefixes one is less than the other.
pub less-StrictOrder : StrictOrder less
less-StrictOrder = record { irreflexive = less_irrefl; transitive = less_trans; total = less-total }

-- ===== src/Netip/Order.antt =====
-- Go's `addr.Compare`, and its laws as an order.
use Prim.Native.Nat.{compare, Ordering}
use package.cloud_route_manager.Base.{Text, ◌≡◌, refl, [], ◌∷◌, arith}
use package.cloud_route_manager.Netip.Defs.{Addr, no_addr, v4, v6, bit_len}

-- `strings.Compare`: byte by byte, which for UTF-8 is by code points.
pub compare_text : Text → Text → Ordering
compare_text [] [] = Ordering.eq
compare_text [] (d ∷ t) = Ordering.lt
compare_text (c ∷ s) [] = Ordering.gt
compare_text (c ∷ s) (d ∷ t) =
    let rest = compare_text s t in
    elim (compare c d) [
      | Ordering.lt ↦ Ordering.lt
      | Ordering.gt ↦ Ordering.gt
      | Ordering.eq ↦ rest
    ]

-- `addr.Compare`: by length, then by number, then by zone.
unfoldable pub compare_addr : Addr → Addr → Ordering
unfolding compare_text
compare_addr (v4 n) (v4 m) = compare n m
compare_addr (v6 n y) (v6 m z) = elim (compare n m) [
  | Ordering.lt ↦ Ordering.lt
  | Ordering.gt ↦ Ordering.gt
  | Ordering.eq ↦ compare_text y z
]
compare_addr a b = compare (bit_len a) (bit_len b)

compare_text-eq : (s t : Text) → compare_text s t ≡ Ordering.eq → s ≡ t
unfolding compare_text
compare_text-eq [] [] h = refl
compare_text-eq [] (d ∷ t) h = ground arith
compare_text-eq (c ∷ s) [] h = ground arith
compare_text-eq (c ∷ s) (d ∷ t) h = ground (arith, compare_text-eq s t)

compare_text-swap : (s t : Text) → compare_text s t ≡ Ordering.gt → compare_text t s ≡ Ordering.lt
unfolding compare_text
compare_text-swap [] [] h = ground arith
compare_text-swap [] (d ∷ t) h = ground arith
compare_text-swap (c ∷ s) [] h = refl
compare_text-swap (c ∷ s) (d ∷ t) h = ground (arith, compare_text-swap s t)

compare_text_self : (s : Text) → compare_text s s ≡ Ordering.eq
unfolding compare_text
compare_text_self [] = refl
compare_text_self (c ∷ s) = ground (arith, compare_text_self s)

compare_text_trans :
    (s t u : Text)
    → compare_text s t ≡ Ordering.lt
    → compare_text t u ≡ Ordering.lt
    → compare_text s u ≡ Ordering.lt
unfolding compare_text
compare_text_trans [] [] u h k = ground arith
compare_text_trans [] (d ∷ t) [] h k = ground arith
compare_text_trans [] (d ∷ t) (e ∷ u) h k = refl
compare_text_trans (c ∷ s) [] u h k = ground arith
compare_text_trans (c ∷ s) (d ∷ t) [] h k = ground arith
compare_text_trans (c ∷ s) (d ∷ t) (e ∷ u) h k = ground (arith, compare_text_trans s t u)

pub compare_addr-eq : (a b : Addr) → compare_addr a b ≡ Ordering.eq → a ≡ b
unfolding compare_addr
compare_addr-eq (v4 n) (v4 m) h = ground arith
compare_addr-eq (v6 n y) (v6 m z) h = ground (arith, compare_text-eq y z)
compare_addr-eq no_addr no_addr h = refl
compare_addr-eq a b h = ground arith

-- Of two addresses the second is less if the first is greater.
pub compare_addr-swap :
    (a b : Addr) → compare_addr a b ≡ Ordering.gt → compare_addr b a ≡ Ordering.lt
unfolding compare_addr
compare_addr-swap (v4 n) (v4 m) h = ground arith
compare_addr-swap (v6 n y) (v6 m z) h = ground (arith, compare_text-swap y z)
compare_addr-swap a b h = ground arith

pub compare_addr_self : (a : Addr) → compare_addr a a ≡ Ordering.eq
unfolding compare_addr
compare_addr_self no_addr = refl
compare_addr_self (v4 n) = ground arith
compare_addr_self (v6 n z) = ground (arith, compare_text_self z)

pub compare_addr_trans :
    (a b c : Addr)
    → compare_addr a b ≡ Ordering.lt
    → compare_addr b c ≡ Ordering.lt
    → compare_addr a c ≡ Ordering.lt
unfolding compare_addr
compare_addr_trans (v4 n) (v4 m) (v4 k) h i = ground arith
compare_addr_trans (v6 n x) (v6 m y) (v6 k z) h i =
    ground (arith, compare_text_trans x y z, compare_text-eq x y, compare_text-eq y z)
compare_addr_trans a b c h i = ground arith

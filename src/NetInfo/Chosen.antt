-- ===== src/NetInfo/Chosen.antt =====
-- internal/netinfo/netinfo.go: which interface and which address `Detect` chooses.
use cloud_route_manager.Base.{
  ℕ, Error, ◌≡◌, refl, ap, sym, ◌∙◌, Text, false, List, [], ◌∷◌, arith, is_empty, Option, none,
  some, Option-cases, Result, ok, err, Result-cases, All, inl, inr, subst,
}
use cloud_route_manager.Base.Strings.{trim_space}
use cloud_route_manager.Netip.{Addr, addr_eq, unmap, parse_addr}
use cloud_route_manager.NetInfo.{
  Primary, NetAddr, addr_from_slice, Interface, Kernel, find_owner, among, interface_for,
  local_addr, owner_names, mac_of, first_ipv4, outbound_addr, with_address, with_interface,
  configured_interface, with_owner, default_route, by_override, configured_address, detect,
}
use cloud_route_manager.NetInfo.Owners.{
  Owns, IsFirstOwner, IsFirstRoutable, find_owner-ok, find_owner-err, first_of-ok,
}

-- The names that go with a configured address: those of the configured interface, or else of the first
-- owner of the address. Where there is none, what is not configured is empty.
pub data IsNamed (k : Kernel) (a : Addr) : Text → Text → Text → Type 0 where
  by_name :
      (name : Text) (i : Interface)
      → is_empty name ≡ false
      → k.interface_by_name name ≡ ok i
      → IsNamed k a name name i.mac
  unknown_name :
      (name : Text) (e : Error)
      → is_empty name ≡ false
      → k.interface_by_name name ≡ err e
      → IsNamed k a name name []
  by_owner :
      (i : Interface) (is : List Interface)
      → k.interfaces ≡ ok is
      → IsFirstOwner a is i
      → IsNamed k a [] i.name i.mac
  no_owner :
      (is : List Interface) → k.interfaces ≡ ok is → All (λ j. ¬ Owns j a) is → IsNamed k a [] [] []
  no_list : (e : Error) → k.interfaces ≡ err e → IsNamed k a [] [] []

-- The choices, by what is configured: an address; an interface, for its first routable address; or
-- neither, for the local address of the default route and the first interface that owns it.
pub data IsChosen (k : Kernel) : Text → Text → Primary → Type 0 where
  by_address :
      (name ip : Text) (a : Addr) (p : Primary)
      → is_empty ip ≡ false
      → parse_addr ip ≡ some a
      → p.ip ≡ unmap a
      → IsNamed k (unmap a) name p.interface p.mac
      → IsChosen k name ip p
  by_interface :
      (name : Text) (i : Interface) (a : Addr) (entries : List NetAddr)
      → is_empty name ≡ false
      → k.interface_by_name name ≡ ok i
      → i.addrs ≡ ok entries
      → IsFirstRoutable a entries
      → IsChosen k name [] (record { interface = i.name; ip = a; mac = i.mac })
  by_route :
      (bytes : List ℕ) (a : Addr) (i : Interface) (is : List Interface)
      → k.dial ≡ ok (some bytes)
      → addr_from_slice bytes ≡ some a
      → k.interfaces ≡ ok is
      → IsFirstOwner (unmap a) is i
      → IsChosen k [] [] (record { interface = i.name; ip = unmap a; mac = i.mac })

with_interface-IsChosen :
    (k : Kernel) (name : Text) (i : Interface) (r : Result Addr) (p : Primary)
    → is_empty name ≡ false
    → k.interface_by_name name ≡ ok i
    → first_ipv4 i ≡ r
    → with_interface i r ≡ (p, none)
    → IsChosen k name [] p
unfolding first_ipv4
with_interface-IsChosen k name i (err e) p n b f h = cc h
with_interface-IsChosen k name i (ok a) p n b f h =
    let (entries, q, first) = first_of-ok i.name i.addrs a f in
    subst (IsChosen k name []) (ap (λ t. t.0) h) (by_interface name i a entries n b q first)

configured_interface-IsChosen :
    (k : Kernel) (name : Text) (r : Result Interface) (p : Primary)
    → is_empty name ≡ false
    → k.interface_by_name name ≡ r
    → configured_interface r ≡ (p, none)
    → IsChosen k name [] p
configured_interface-IsChosen k name (err e) p n b h = cc h
configured_interface-IsChosen k name (ok i) p n b h =
    with_interface-IsChosen k name i (first_ipv4 i) p n b refl h

with_owner-IsChosen :
    (k : Kernel) (bytes : List ℕ) (a : Addr) (is : Result (List Interface)) (p : Primary)
    → k.dial ≡ ok (some bytes)
    → addr_from_slice bytes ≡ some a
    → k.interfaces ≡ is
    → with_owner (unmap a) (among (unmap a) is) ≡ (p, none)
    → IsChosen k [] [] p
with_owner-IsChosen k bytes a (err e) p o s q h = cc h
with_owner-IsChosen k bytes a (ok is) p o s q h = elim (Result-cases (find_owner (unmap a) is)) [
  | inl (i, e) ↦
      subst (IsChosen k [] []) (ap (λ t. t.0) (sym (ap (with_owner (unmap a)) e) ∙ h))
        (by_route bytes a i is o s q (find_owner-ok (unmap a) is i e))
  | inr (x, e) ↦ let bad = sym (ap (with_owner (unmap a)) e) ∙ h in cc bad
]

-- The local address of the socket, as `outbound_addr` makes it of the bytes.
local_addr-ok :
    (r : Result (Option (List ℕ))) (a : Addr)
    → local_addr r ≡ ok a
    → (bytes : List ℕ) × (b : Addr) × (r ≡ ok (some bytes))
      × (addr_from_slice bytes ≡ some b)
      × (unmap b ≡ a)
local_addr-ok (err e) a h = cc h
local_addr-ok (ok none) a h = cc h
local_addr-ok (ok (some bytes)) a h = elim (Option-cases (addr_from_slice bytes)) [
  | inl q ↦ absurd (ground (arith, q, h))
  | inr (b, q) ↦ (bytes, b, refl, q, ground (arith, q, h))
]

default_route-IsChosen :
    (k : Kernel) (r : Result Addr) (p : Primary)
    → outbound_addr k ≡ r
    → default_route k r ≡ (p, none)
    → IsChosen k [] [] p
unfolding interface_for outbound_addr
default_route-IsChosen k (err e) p o h = cc h
default_route-IsChosen k (ok a) p o h =
    let (bytes, b, d, s, q) = local_addr-ok k.dial a o in
    with_owner-IsChosen k bytes b k.interfaces p d s refl
      (ap (λ x. with_owner x (among x k.interfaces)) q ∙ h)

owner_names-IsNamed :
    (k : Kernel) (a : Addr) (is : Result (List Interface))
    → k.interfaces ≡ is
    → IsNamed k a [] (owner_names (among a is)).0 (owner_names (among a is)).1
owner_names-IsNamed k a (err e) q = no_list e q
owner_names-IsNamed k a (ok is) q = elim (Result-cases (find_owner a is)) [
  | inl (i, e) ↦ rw e (by_owner i is q (find_owner-ok a is i e))
  | inr (x, e) ↦ rw e (no_owner is q (find_owner-err a is x e))
]

mac_of-IsNamed :
    (k : Kernel) (a : Addr) (name : Text) (r : Result Interface)
    → is_empty name ≡ false
    → k.interface_by_name name ≡ r
    → IsNamed k a name name (mac_of r)
mac_of-IsNamed k a name (err e) n q = unknown_name name e n q
mac_of-IsNamed k a name (ok i) n q = by_name name i n q

with_address-IsNamed :
    (k : Kernel) (name : Text) (a : Addr)
    → IsNamed k a name (with_address k name a).interface (with_address k name a).mac
unfolding interface_for
with_address-IsNamed k [] a = owner_names-IsNamed k a k.interfaces refl
with_address-IsNamed k (c ∷ name) a =
    mac_of-IsNamed k a (c ∷ name) (k.interface_by_name (c ∷ name)) refl refl

with_address-ip : (k : Kernel) (name : Text) (a : Addr) → (with_address k name a).ip ≡ a
with_address-ip k [] a = refl
with_address-ip k (c ∷ name) a = refl

configured_address-IsChosen :
    (k : Kernel) (name ip : Text) (o : Option Addr) (p : Primary)
    → is_empty ip ≡ false
    → parse_addr ip ≡ o
    → configured_address k name o ≡ (p, none)
    → IsChosen k name ip p
configured_address-IsChosen k name ip none p n q h = cc h
configured_address-IsChosen k name ip (some a) p n q h =
    subst (IsChosen k name ip) (ap (λ t. t.0) h) (
      by_address name ip a (with_address k name (unmap a)) n q (with_address-ip k name (unmap a))
        (with_address-IsNamed k name (unmap a)))

by_override-IsChosen :
    (k : Kernel) (name ip : Text) (p : Primary)
    → by_override k name ip ≡ (p, none)
    → IsChosen k name ip p
by_override-IsChosen k name (c ∷ ip) p h =
    configured_address-IsChosen k name (c ∷ ip) (parse_addr (c ∷ ip)) p refl refl h
by_override-IsChosen k (c ∷ name) [] p h =
    configured_interface-IsChosen k (c ∷ name) (k.interface_by_name (c ∷ name)) p refl refl h
by_override-IsChosen k [] [] p h = default_route-IsChosen k (outbound_addr k) p refl h

-- What `Detect` returns with no error is a choice for the trimmed overrides (`IsChosen`). A configured
-- address is taken unmapped, with the configured interface's name and hardware address, or with those of
-- the first interface that owns it, or with empty ones; a configured interface alone with its first
-- IPv4 address that is no loopback and no link-local one; and with neither, the local address of the
-- default route with the first interface that owns it.
pub detect-IsChosen :
    (k : Kernel) (iface ip : Text) (p : Primary)
    → detect k iface ip ≡ (p, none)
    → IsChosen k (trim_space iface) (trim_space ip) p
unfolding detect
detect-IsChosen k iface ip p h = by_override-IsChosen k (trim_space iface) (trim_space ip) p h

-- ===== src/NetInfo.antt =====
-- internal/netinfo/netinfo.go: the primary interface of the host. What the `net` package reads of the
-- kernel is the parameter `Kernel`.
pub mod Owners
pub mod Chosen
use cloud_route_manager.Base.{
  ℕ, zero, suc, ◌+◌, ◌*◌, ◌/◌, ◌^◌, Text, codes, Bool, true, false, not, ◌&&◌, ◌=ℕ◌, List, [], ◌∷◌,
  ◌++◌, ◌==◌, if◌then◌else◌, is_empty, Option, none, some, Error, errorf, wrapf, Result, ok, err,
  from_option,
}
use cloud_route_manager.Base.Strings.{trim_space}
use cloud_route_manager.Netip.{Addr, addr_eq, no_addr, v4, v6, is4, unmap, parse_addr, addr_string}

-- `Primary`
pub record Primary : Type 0 where
  pub interface : Text
  pub ip : Addr
  pub mac : Text

-- `Primary{}`
abbrev pub no_primary : Primary
no_primary = record { interface = []; ip = no_addr; mac = [] }

-- A `net.Addr`: an `*net.IPNet` with the bytes of its address, or another type.
pub data NetAddr : Type 0 where
  ip_net : List ℕ → NetAddr
  other : NetAddr

-- `net.Interface`, with what `Addrs` returns and the text of its hardware address.
pub record Interface : Type 0 where
  pub name : Text
  pub mac : Text
  pub addrs : Result (List NetAddr)

-- `net.InterfaceByName`, `net.Interfaces`, and the local address of `net.Dial("udp4", probeTarget)`:
-- the bytes of an `*net.UDPAddr`, or none for another type.
pub record Kernel : Type 0 where
  pub interface_by_name : Text → Result Interface
  pub interfaces : Result (List Interface)
  pub dial : Result (Option (List ℕ))

-- A number from its bytes, the highest first.
unfoldable pub from_bytes : ℕ → List ℕ → ℕ
from_bytes n [] = n
from_bytes n (b ∷ bs) = from_bytes (n * 256 + b) bs

-- `netip.AddrFromSlice`: 4 bytes or 16.
unfoldable pub addr_from_slice : List ℕ → Option Addr
unfolding from_bytes
addr_from_slice (a ∷ b ∷ c ∷ d ∷ []) = some (v4 (from_bytes 0 (a ∷ b ∷ c ∷ d ∷ [])))
addr_from_slice (a ∷ b ∷ c ∷ d ∷ e ∷ f ∷ g ∷ h ∷ i ∷ j ∷ k ∷ l ∷ m ∷ n ∷ o ∷ p ∷ []) =
    some (v6 (from_bytes 0 (a ∷ b ∷ c ∷ d ∷ e ∷ f ∷ g ∷ h ∷ i ∷ j ∷ k ∷ l ∷ m ∷ n ∷ o ∷ p ∷ [])) [])
addr_from_slice _ = none

-- `addr.IsLoopback()` and `addr.IsLinkLocalUnicast()`
abbrev pub is_loopback : Addr → Bool
is_loopback no_addr = false
is_loopback (v4 n) = n / 2 ^ 24 =ℕ 127
is_loopback (v6 n z) = n =ℕ 1

abbrev pub is_link_local : Addr → Bool
is_link_local no_addr = false
is_link_local (v4 n) = n / 2 ^ 16 =ℕ 0xa9fe
is_link_local (v6 n z) = n / 2 ^ 118 =ℕ 0x3fa

-- The address of an entry, unmapped.
unfoldable pub entry_addr : NetAddr → Option Addr
entry_addr other = none
entry_addr (ip_net bytes) = elim (addr_from_slice bytes) [ none ↦ none | some a ↦ some (unmap a) ]

-- The check of `interfaceFor` on one address.
abbrev pub same_addr : Addr → Option Addr → Bool
same_addr addr none = false
same_addr addr (some a) = a == addr

-- The inner loop of `interfaceFor`.
unfoldable pub owns : Addr → List NetAddr → Bool
owns addr [] = false
owns addr (a ∷ ads) = if same_addr addr (entry_addr a) then true else owns addr ads

-- The loop body. An interface whose addresses cannot be read is passed over.
abbrev pub owns_result : Addr → Result (List NetAddr) → Bool
owns_result addr (err e) = false
owns_result addr (ok ads) = owns addr ads

unfoldable pub find_owner : Addr → List Interface → Result Interface
find_owner addr [] = err (errorf "no interface owns address %s" (addr_string addr ∷ []))
find_owner addr (i ∷ is) =
    let rest = find_owner addr is in if owns_result addr i.addrs then ok i else rest

abbrev pub among : Addr → Result (List Interface) → Result Interface
among addr (err e) = err (wrapf "list interfaces: %w" [] e)
among addr (ok is) = find_owner addr is

-- `interfaceFor`
unfoldable pub interface_for : Kernel → Addr → Result Interface
interface_for k addr = among addr k.interfaces

-- The check of `firstIPv4`.
abbrev pub usable : Addr → Bool
usable a = is4 a && not (is_loopback a) && not (is_link_local a)

abbrev pub if_usable : Option Addr → Option Addr
if_usable none = none
if_usable (some a) = if usable a then some a else none

-- The loop of `firstIPv4`.
unfoldable pub first_usable : List NetAddr → Option Addr
first_usable [] = none
first_usable (a ∷ ads) = elim (if_usable (entry_addr a)) [
  | some b ↦ some b
  | none ↦ first_usable ads
]

abbrev pub first_of : Text → Result (List NetAddr) → Result Addr
first_of name (err e) = err (wrapf "addresses of %s: %w" (name ∷ []) e)
first_of name (ok ads) =
    from_option (errorf "interface %s has no usable IPv4 address" (name ∷ [])) (first_usable ads)

-- `firstIPv4`
unfoldable pub first_ipv4 : Interface → Result Addr
first_ipv4 i = first_of i.name i.addrs

abbrev pub local_addr : Result (Option (List ℕ)) → Result Addr
local_addr (err e) = err (wrapf "detect default route: %w" [] e)
local_addr (ok none) = err (errorf "detect default route: unexpected local address %v" [])
local_addr (ok (some bytes)) = elim (addr_from_slice bytes) [
  | none ↦ err (errorf "detect default route: bad local address %v" [])
  | some a ↦ ok (unmap a)
]

-- `outboundAddr`
unfoldable pub outbound_addr : Kernel → Result Addr
outbound_addr k = local_addr k.dial

-- The branch of a configured address: the name and the hardware address are left empty where no
-- interface is found.
abbrev pub owner_names : Result Interface → Text × Text
owner_names (err e) = ([], [])
owner_names (ok i) = (i.name, i.mac)

abbrev pub mac_of : Result Interface → Text
mac_of (err e) = []
mac_of (ok i) = i.mac

abbrev pub with_address : Kernel → Text → Addr → Primary
with_address k [] addr =
    let (name, mac) = owner_names (interface_for k addr) in
    record { interface = name; ip = addr; mac = mac }
with_address k (c ∷ name) addr = record {
  interface = c ∷ name;
  ip = addr;
  mac = mac_of (k.interface_by_name (c ∷ name));
}

abbrev pub configured_address : Kernel → Text → Option Addr → Primary × Option Error
configured_address k name none =
    (no_primary, some (wrapf "general.ip-address: %w" [] (errorf "ParseAddr" [])))
configured_address k name (some addr) = (with_address k name (unmap addr), none)

-- The branch of a configured interface.
abbrev pub with_interface : Interface → Result Addr → Primary × Option Error
with_interface i (err e) = (no_primary, some e)
with_interface i (ok addr) = (record { interface = i.name; ip = addr; mac = i.mac }, none)

abbrev pub configured_interface : Result Interface → Primary × Option Error
configured_interface (err e) = (no_primary, some (wrapf "general.interface: %w" [] e))
configured_interface (ok i) = with_interface i (first_ipv4 i)

-- The branch of the default route.
abbrev pub with_owner : Addr → Result Interface → Primary × Option Error
with_owner addr (err e) = (no_primary, some e)
with_owner addr (ok i) = (record { interface = i.name; ip = addr; mac = i.mac }, none)

abbrev pub default_route : Kernel → Result Addr → Primary × Option Error
default_route k (err e) = (no_primary, some e)
default_route k (ok addr) = with_owner addr (interface_for k addr)

abbrev pub by_override : Kernel → Text → Text → Primary × Option Error
by_override k name (c ∷ ip) = configured_address k name (parse_addr (c ∷ ip))
by_override k (c ∷ name) [] = configured_interface (k.interface_by_name (c ∷ name))
by_override k [] [] = default_route k (outbound_addr k)

-- `Detect`
unfoldable pub detect : Kernel → Text → Text → Primary × Option Error
detect k iface ip = by_override k (trim_space iface) (trim_space ip)

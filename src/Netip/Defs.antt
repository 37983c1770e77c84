-- ===== src/Netip/Defs.antt =====
-- `netip.Addr` and `netip.Prefix`. An address is a number below 2 ^ 32 or 2 ^ 128.
use Prim.Native.Nat.{ℕ, zero, suc, ◌+◌, ◌-◌, ◌*◌, ◌/◌, ◌%◌, ◌^◌, ◌≤◌}
use mathlib.Core.Path.{◌≡◌}
use mathlib.Core.Bool.{Bool, true, false, ◌&&◌}
use mathlib.Core.List.{[]}
use native.Mathlib.Decide.{ℕ_discrete}
use package.cloud_route_manager.Base.{Text, Eq, ◌=ℕ◌, ltb, leb, if◌then◌else◌}

-- `no_addr` is the zero `Addr`. The text of `v6` is the zone, empty for none.
pub data Addr : Type 0 where
  no_addr : Addr
  v4 : ℕ → Addr
  v6 : ℕ → Text → Addr

pub Addr-discrete : Discrete Addr
Addr-discrete = hlevel ℕ_discrete

instance unfoldable pub addr_eq : Eq Addr
unfolding Addr-discrete ℕ_discrete
addr_eq = record { dec = Addr-discrete }

-- `addr.IsValid()`
abbrev pub is_valid : Addr → Bool
is_valid no_addr = false
is_valid _ = true

-- `addr.Is4()`
abbrev pub is4 : Addr → Bool
is4 (v4 n) = true
is4 _ = false

-- `addr.BitLen()`
abbrev pub bit_len : Addr → ℕ
bit_len no_addr = 0
bit_len (v4 n) = 32
bit_len (v6 n z) = 128

-- `addr.Unmap()`: the IPv4 address in an IPv4-mapped IPv6 address.
unfoldable pub unmap : Addr → Addr
unmap (v6 n z) = if (n / 2 ^ 32) =ℕ 0xffff then v4 (n % 2 ^ 32) else v6 n z
unmap a = a

-- `addr.withoutZone()`
abbrev pub without_zone : Addr → Addr
without_zone (v6 n z) = v6 n []
without_zone a = a

-- Go's own representation: the zero prefix has 0 here, and `p.Bits()` is one less.
pub record Prefix : Type 0 where
  pub addr : Addr
  pub bits_plus_one : ℕ

pub Prefix-discrete : Discrete Prefix
Prefix-discrete = hlevel (ℕ_discrete, Addr-discrete)

instance unfoldable pub prefix_eq : Eq Prefix
unfolding Prefix-discrete Addr-discrete ℕ_discrete
prefix_eq = record { dec = Prefix-discrete }

-- `netip.PrefixFrom(addr, bits)`, for `bits` that is not negative.
unfoldable pub prefix_from : Addr → ℕ → Prefix
prefix_from a bits = record {
  addr = without_zone a;
  bits_plus_one = if is_valid a && leb bits (bit_len a) then suc bits else 0;
}

-- Clears all but the first `bits` of `len` bits.
abbrev pub mask_bits : ℕ → ℕ → ℕ → ℕ
mask_bits len bits n = n / 2 ^ (len - bits) * 2 ^ (len - bits)

-- `p.Masked()`: the zero prefix where `p` is not valid.
unfoldable pub masked : Prefix → Prefix
unfolding prefix_from
masked p = elim p.bits_plus_one [
  | zero ↦ record { addr = no_addr; bits_plus_one = 0 }
  | suc bits ↦ elim p.addr [
    | no_addr ↦ record { addr = no_addr; bits_plus_one = 0 }
    | v4 n ↦ prefix_from (v4 (mask_bits 32 bits n)) bits
    | v6 n z ↦ prefix_from (v6 (mask_bits 128 bits n) z) bits
  ]
]

-- The numbers that the representation can hold.
abbrev pub IsAddr : Addr → Type 0
IsAddr no_addr = Unit
IsAddr (v4 n) = ltb n (2 ^ 32) ≡ true
IsAddr (v6 n z) = ltb n (2 ^ 128) ≡ true

-- A route prefix in its one canonical form: an address with no zone and no bits behind the mask.
pub record IsCanonical (p : Prefix) : Type 0 where
  pub valid : is_valid p.addr ≡ true
  pub within : (1 ≤ p.bits_plus_one) × (p.bits_plus_one ≤ bit_len p.addr + 1)
  pub is_masked : masked p ≡ p

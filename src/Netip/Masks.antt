-- ===== src/Netip/Masks.antt =====
-- Go's `netip`: masking, and the canonical form of a prefix.
use Prim.Native.Nat.{ℕ, ◌-◌, ◌*◌, ◌/◌, ◌^◌, ◌≤◌}
use native.Mathlib.Nat.{mul-div_cancel, one-le-pow, div-one}
use package.cloud_route_manager.Base.{Text, ◌≡◌, refl, ap, leb, true, arith, []}
use package.cloud_route_manager.Netip.Defs.{
  Addr, no_addr, v4, v6, is_valid, bit_len, prefix_from, masked, mask_bits, unmap, IsCanonical,
}

leb_of_le : (a b : ℕ) → a ≤ b → leb a b ≡ true
leb_of_le a b h = ground arith

mask_bits_idem : (len bits n : ℕ) → mask_bits len bits (mask_bits len bits n) ≡ mask_bits len bits n
mask_bits_idem len bits n =
    ap (λ (q : ℕ). q * 2 ^ (len - bits))
      (mul-div_cancel (n / 2 ^ (len - bits)) (one-le-pow (len - bits) 2 (omega arith)))

-- A mask of the full length keeps every bit.
mask_bits_full : (len n : ℕ) → mask_bits len len n ≡ n
mask_bits_full len n = let e : len - len ≡ 0 = omega arith in rw (e, div-one) (omega arith)

-- A prefix that its own mask does not change.
IsCanonical-v4 :
    (n bits : ℕ) → bits ≤ 32 → mask_bits 32 bits n ≡ n → IsCanonical (prefix_from (v4 n) bits)
unfolding masked prefix_from
IsCanonical-v4 n bits h e =
    rw (leb_of_le bits 32 h)
      (record { valid = refl; within = omega arith; is_masked = rw e (rw (leb_of_le bits 32 h)) })

IsCanonical-v6 :
    (n bits : ℕ) (z : Text)
    → bits ≤ 128
    → mask_bits 128 bits n ≡ n
    → IsCanonical (prefix_from (v6 n z) bits)
unfolding masked prefix_from
IsCanonical-v6 n bits z h e =
    rw (leb_of_le bits 128 h)
      (record { valid = refl; within = omega arith; is_masked = rw e (rw (leb_of_le bits 128 h)) })

abbrev pub Fits : Addr → ℕ → Type 0
Fits a bits = (is_valid a ≡ true) × (bits ≤ bit_len a)

-- The masked form of an address with a length that fits it is canonical.
pub masked-IsCanonical :
    (a : Addr) (bits : ℕ) → Fits a bits → IsCanonical (masked (prefix_from a bits))
unfolding masked prefix_from
masked-IsCanonical no_addr bits h = cc (h.0)
masked-IsCanonical (v4 n) bits h =
    rw (leb_of_le bits 32 h.1)
      (IsCanonical-v4 (mask_bits 32 bits n) bits h.1 (mask_bits_idem 32 bits n))
masked-IsCanonical (v6 n z) bits h =
    rw (leb_of_le bits 128 h.1)
      (IsCanonical-v6 (mask_bits 128 bits n) bits [] h.1 (mask_bits_idem 128 bits n))

-- A host route is canonical as it is.
pub host-IsCanonical : (a : Addr) → is_valid a ≡ true → IsCanonical (prefix_from a (bit_len a))
host-IsCanonical no_addr h = cc h
host-IsCanonical (v4 n) h = IsCanonical-v4 n 32 (omega arith) (mask_bits_full 32 n)
host-IsCanonical (v6 n z) h = IsCanonical-v6 n 128 z (omega arith) (mask_bits_full 128 n)

pub unmap-is_valid : (a : Addr) → is_valid (unmap a) ≡ is_valid a
unfolding unmap
unmap-is_valid a = ground arith

-- ===== src/Netip/Parse/Bounds.antt =====
-- The numbers of the IPv4 addresses that the parsers of `netip` return.
use mathlib.Core.Option
use package.cloud_route_manager.Base.{
  ℕ, zero, suc, ◌+◌, ◌*◌, ◌/◌, ◌^◌, ◌≤◌, ◌<◌, ◌-◌, Text, ◌≡◌, refl, subst, [], ◌∷◌, some, none,
  arith, Option, Option-cases, Bool-cases, inl, inr, if_elim, ◌&&◌, ◌=ℕ◌, is_empty,
}
use native.Mathlib.Nat.{div-mul-le_self}
use package.cloud_route_manager.Base.Strings.{has_char, before}
use package.cloud_route_manager.Netip.Defs.{
  Addr, no_addr, v4, v6, unmap, Prefix, prefix_from, masked, mask_bits, without_zone,
}
use package.cloud_route_manager.Netip.Parse.{
  parse_v4, parse_v6, after_char, parse_by, parse_zoned, parse_addr, parse_bits, split_last,
  parse_prefix,
}

-- An IPv4 address has 32 bits.
abbrev pub IsBounded : Addr → Type 0
IsBounded (v4 n) = n < 2 ^ 32
IsBounded _ = Unit

-- What the fields before one are below.
abbrev bound : ℕ → ℕ
bound zero = 1
bound (suc zero) = 256
bound (suc (suc zero)) = 65_536
bound _ = 16_777_216

bound_next :
    (acc pos val : ℕ) → pos < 3 → acc < bound pos → val ≤ 255 → acc * 256 + val < bound (pos + 1)
bound_next acc zero val h k l = omega (arith, k, l)
bound_next acc (suc zero) val h k l = omega (arith, k, l)
bound_next acc (suc (suc zero)) val h k l = omega (arith, k, l)
bound_next acc (suc (suc (suc pos))) val h k l = absurd (omega (arith, h))

bound_last :
    (acc pos val : ℕ) → 3 ≤ pos → pos ≤ 3 → acc < bound pos → val ≤ 255 → acc * 256 + val < 2 ^ 32
bound_last acc zero val h m k l = absurd (omega (arith, h))
bound_last acc (suc zero) val h m k l = absurd (omega (arith, h))
bound_last acc (suc (suc zero)) val h m k l = absurd (omega (arith, h))
bound_last acc (suc (suc (suc pos))) val h m k l = omega (arith, k, l)

parse_v4-bounded :
    (s : Text) (acc pos val k n : ℕ)
    → pos ≤ 3
    → acc < bound pos
    → val ≤ 255
    → parse_v4 s acc pos val k ≡ some n
    → n < 2 ^ 32
unfolding parse_v4
parse_v4-bounded [] acc pos val k n h b v e = ground (arith, bound_last acc pos val, h, b, v, e)
parse_v4-bounded (c ∷ s) acc pos val k n h b v e = ground (
  arith,
  h,
  b,
  v,
  e,
  bound_next acc pos val,
  parse_v4-bounded s acc pos (val * 10 + (c - b'0')) (k + 1) n h b,
  parse_v4-bounded s (acc * 256 + val) (pos + 1) 0 0 n,
)

map_v4-IsBounded :
    (o : Option ℕ) (a : Addr)
    → ((n : ℕ) → o ≡ some n → n < 2 ^ 32)
    → Option.map v4 o ≡ some a
    → IsBounded a
map_v4-IsBounded none a h e = cc e
map_v4-IsBounded (some n) a h e = let q : v4 n ≡ a = cc e in subst IsBounded q (h n refl)

map_v6-IsBounded :
    (o : Option ℕ) (z : Text) (a : Addr) → Option.map (λ n. v6 n z) o ≡ some a → IsBounded a
map_v6-IsBounded none z a e = cc e
map_v6-IsBounded (some n) z a e = let q : v6 n z ≡ a = cc e in subst IsBounded q tt

parse_zoned-IsBounded : (s : Text) (a : Addr) → parse_zoned s ≡ some a → IsBounded a
unfolding parse_zoned
parse_zoned-IsBounded s a e = elim (Bool-cases (has_char b'%' s && is_empty (after_char b'%' s))) [
  | inl k ↦ absurd (ground (arith, k, e))
  | inr k ↦
      map_v6-IsBounded (parse_v6 (before (b'%' ∷ []) s)) (after_char b'%' s) a
        (ground (arith, k, e))
]

parse_by-IsBounded : (s r : Text) (a : Addr) → parse_by s r ≡ some a → IsBounded a
unfolding parse_by
parse_by-IsBounded s [] a e = cc e
parse_by-IsBounded s (c ∷ r) a e = elim (Bool-cases (c =ℕ b'.')) [
  | inl k ↦
      map_v4-IsBounded (parse_v4 s 0 0 0 0) a
        (λ n h. parse_v4-bounded s 0 0 0 0 n (omega arith) (omega arith) (omega arith) h)
        (ground (arith, k, e))
  | inr k ↦ elim (Bool-cases (c =ℕ b':')) [
    | inl l ↦ parse_zoned-IsBounded s a (ground (arith, k, l, e))
    | inr l ↦ elim (Bool-cases (c =ℕ b'%')) [
      | inl m ↦ absurd (ground (arith, k, l, m, e))
      | inr m ↦ parse_by-IsBounded s r a (ground (arith, k, l, m, e))
    ]
  ]
]

pub parse_addr-IsBounded : (s : Text) (a : Addr) → parse_addr s ≡ some a → IsBounded a
unfolding parse_addr
parse_addr-IsBounded s a e = parse_by-IsBounded s s a e

without_zone-IsBounded : (a : Addr) → IsBounded a → IsBounded (without_zone a)
without_zone-IsBounded no_addr h = tt
without_zone-IsBounded (v4 n) h = h
without_zone-IsBounded (v6 n z) h = tt

pub prefix_from-IsBounded :
    (a : Addr) (bits : ℕ) → IsBounded a → IsBounded (prefix_from a bits).addr
unfolding prefix_from
prefix_from-IsBounded a bits h = without_zone-IsBounded a h

pub unmap-IsBounded : (a : Addr) → IsBounded a → IsBounded (unmap a)
unfolding unmap
unmap-IsBounded no_addr h = tt
unmap-IsBounded (v4 n) h = h
unmap-IsBounded (v6 n z) h = if_elim IsBounded (n / 2 ^ 32 =ℕ 0xffff) (λ k. omega arith) (λ k. tt)

pub parse_prefix-IsBounded : (s : Text) (p : Prefix) → parse_prefix s ≡ some p → IsBounded p.addr
unfolding parse_prefix Option.bind
parse_prefix-IsBounded s p h = elim (Option-cases (split_last s)) [
  | inl e ↦ absurd (ground arith)
  | inr (q, e) ↦ elim (Option-cases (parse_addr q.0)) [
    | inl e' ↦ absurd (ground arith)
    | inr (a, e') ↦ elim (Option-cases (parse_bits q.1)) [
      | inl e'' ↦ absurd (ground arith)
      | inr (bits, e'') ↦
          let k : prefix_from a bits ≡ p = ground arith in
          subst (λ (p : Prefix). IsBounded p.addr) k
            (prefix_from-IsBounded a bits (parse_addr-IsBounded q.0 a e'))
    ]
  ]
]

mask_bits-le : (len bits n : ℕ) → mask_bits len bits n ≤ n
mask_bits-le len bits n = div-mul-le_self n (2 ^ (len - bits))

masked_parts-IsBounded :
    (a : Addr) (k : ℕ)
    → IsBounded a
    → IsBounded (masked (record { addr = a; bits_plus_one = k })).addr
unfolding masked prefix_from
masked_parts-IsBounded a zero h = tt
masked_parts-IsBounded no_addr (suc bits) h = tt
masked_parts-IsBounded (v4 n) (suc bits) h = omega (arith, h, mask_bits-le 32 bits n)
masked_parts-IsBounded (v6 n z) (suc bits) h = tt

pub masked-IsBounded : (p : Prefix) → IsBounded p.addr → IsBounded (masked p).addr
masked-IsBounded p h = masked_parts-IsBounded p.addr p.bits_plus_one h

-- ===== src/Netip/Parse/Results.antt =====
-- What the parsers return: valid addresses, and prefixes whose length fits their address.
use mathlib.Core.Option
use package.cloud_route_manager.Base.{
  ℕ, Text, ◌≡◌, refl, [], ◌∷◌, some, none, true, arith, Option-cases, inl, inr,
}
use package.cloud_route_manager.Netip.Defs.{masked, Addr, Prefix, is_valid, prefix_from}
use package.cloud_route_manager.Netip.Masks.{Fits}
use package.cloud_route_manager.Base.Strings.{trim_space}
use package.cloud_route_manager.Netip.Print.{prefix_string}
use package.cloud_route_manager.Netip.Parse.{
  parse_by, parse_zoned, parse_addr, parse_prefix, parse_bits, split_last,
}

parse_zoned-valid : (s : Text) (a : Addr) → parse_zoned s ≡ some a → is_valid a ≡ true
unfolding parse_zoned
parse_zoned-valid s a h = ground arith

parse_by-valid : (s r : Text) (a : Addr) → parse_by s r ≡ some a → is_valid a ≡ true
unfolding parse_by
parse_by-valid s [] a h = ground arith
parse_by-valid s (c ∷ r) a h = ground (arith, parse_by-valid s r a, parse_zoned-valid s a)

pub parse_addr-valid : (s : Text) (a : Addr) → parse_addr s ≡ some a → is_valid a ≡ true
unfolding parse_addr
parse_addr-valid s a h = parse_by-valid s s a h

pub parse_prefix-nil : parse_prefix [] ≡ none
unfolding parse_prefix Option.bind
parse_prefix-nil = refl

-- A parsed prefix is an address and a length that fits it.
pub parse_prefix-Fits :
    (s : Text) (p : Prefix)
    → parse_prefix s ≡ some p
    → (a : Addr) × (bits : ℕ) × (p ≡ prefix_from a bits) × Fits a bits
unfolding parse_prefix Option.bind
parse_prefix-Fits s p h = elim (Option-cases (split_last s)) [
  | inl e ↦ absurd (ground arith)
  | inr (q, e) ↦ elim (Option-cases (parse_addr q.0)) [
    | inl e' ↦ absurd (ground arith)
    | inr (a, e') ↦ elim (Option-cases (parse_bits q.1)) [
      | inl e'' ↦ absurd (ground arith)
      | inr (bits, e'') ↦ (
        a,
        bits,
        ground arith,
        (parse_addr-valid q.0 a e', ground (arith, parse_addr-valid q.0 a e')),
      )
    ]
  ]
]

-- A prefix whose text is read back as it and has no space round it, with no bits behind its mask.
pub record IsReadBack (p : Prefix) : Type 0 where
  pub trimmed : trim_space (prefix_string p) ≡ prefix_string p
  pub read_back : parse_prefix (prefix_string p) ≡ some p
  pub is_masked : masked p ≡ p

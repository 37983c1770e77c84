-- ===== src/Routes/Parsing.antt =====
-- internal/routes/routes.go: the form of the prefixes that `ParseOne` returns.
use cloud_route_manager.Base.{
  ◌≡◌, Text, some, arith, ok, Option-cases, inl, inr, Bool-cases, subst, sym, ◌∙◌,
}
use cloud_route_manager.Base.Strings.{trim_space, has_char}
use cloud_route_manager.Netip.{
  Addr, Prefix, IsCanonical, masked, prefix_from, bit_len, unmap, parse_addr, parse_prefix,
  parse_addr-valid, parse_prefix-Fits, masked-IsCanonical, host-IsCanonical, unmap-is_valid,
}
use cloud_route_manager.Routes.{parse_one}

IsCanonical-of_prefix : (t : Text) (p : Prefix) → parse_prefix t ≡ some p → IsCanonical (masked p)
IsCanonical-of_prefix t p h =
    let (a, bits, e, fits) = parse_prefix-Fits t p h in
    subst (λ q. IsCanonical (masked q)) (sym e) (masked-IsCanonical a bits fits)

IsCanonical-of_addr :
    (t : Text) (a : Addr)
    → parse_addr t ≡ some a
    → IsCanonical (prefix_from (unmap a) (bit_len (unmap a)))
IsCanonical-of_addr t a h = host-IsCanonical (unmap a) (unmap-is_valid a ∙ parse_addr-valid t a h)

-- A token that `ParseOne` accepts gives a valid prefix with no host bits and no zone.
pub parse_one-IsCanonical : (t : Text) (p : Prefix) → parse_one t ≡ ok p → IsCanonical p
unfolding parse_one
parse_one-IsCanonical token p h =
    let t = trim_space token in
    elim (Bool-cases (has_char b'/' t)) [
      | inl slash ↦ elim (Option-cases (parse_prefix t)) [
        | inl e ↦ absurd (ground arith)
        | inr (q, e) ↦ subst IsCanonical (ground arith) (IsCanonical-of_prefix t q e)
      ]
      | inr bare ↦ elim (Option-cases (parse_addr t)) [
        | inl e ↦ absurd (ground arith)
        | inr (a, e) ↦ subst IsCanonical (ground arith) (IsCanonical-of_addr t a e)
      ]
    ]

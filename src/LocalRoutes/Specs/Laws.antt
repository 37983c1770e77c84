-- ===== src/LocalRoutes/Specs/Laws.antt =====
-- internal/localroutes/spec.go: what `ParseSpec` accepts.
use cloud_route_manager.Base.{
  suc, ◌≡◌, refl, ap, sym, Text, text_eq, codes, true, false, List, [], ◌∷◌, arith, ◌==◌, Option,
  none, some, ok, Bool-cases, inl, inr, ◌⊎◌, All, length, ok-injective, subst, ◌∙◌, Result-cases,
}
use mathlib.Core.Bool.{xor}
use cloud_route_manager.Base.Strings.{fields, to_lower, equal_fold}
use cloud_route_manager.Netip.{
  Addr, no_addr, is4, is_valid, Prefix, IsCanonical, parse_addr, unmap, parse_addr-valid,
  unmap-is_valid,
}
use cloud_route_manager.Routes.{parse_one}
use cloud_route_manager.Routes.Parsing.{parse_one-IsCanonical}
use cloud_route_manager.LocalRoutes.Specs.{
  Spec, with_gateway, with_target, parse_fields, parse_spec, parse_specs, target_default,
  target_blackhole,
}

-- A spec has a canonical prefix and one target: the default route, a black hole, or a valid gateway of
-- the prefix's family.
pub record IsWellFormed (s : Spec) : Type 0 where
  pub canonical : IsCanonical s.prefix
  pub one_target :
      ((s.via_default ≡ true) × (s.blackhole ≡ false) × (s.gateway ≡ no_addr))
      ⊎ (((s.via_default ≡ false) × (s.blackhole ≡ true) × (s.gateway ≡ no_addr))
          ⊎ ((s.via_default ≡ false)
              × (s.blackhole ≡ false)
              × (is_valid s.gateway ≡ true)
              × (is4 s.gateway ≡ is4 s.prefix.addr)))

with_gateway-IsWellFormed :
    (raw : Text) (p : Prefix) (o : Option Addr) (s : Spec)
    → IsCanonical p
    → ((a : Addr) → o ≡ some a → is_valid a ≡ true)
    → with_gateway raw p o ≡ ok s
    → IsWellFormed s
unfolding with_gateway xor
with_gateway-IsWellFormed raw p none s c v h = cc h
with_gateway-IsWellFormed raw p (some gw) s c v h =
    elim (Bool-cases (xor (is4 (unmap gw)) (is4 p.addr))) [
      | inl e ↦ cc (rw (e, with_gateway) at h)
      | inr e ↦ subst IsWellFormed (ok-injective (rw (e, with_gateway) at h)) (record {
        canonical = c;
        one_target = inr (inr (refl, refl, unmap-is_valid gw ∙ v gw refl, ground arith));
      })
    ]

with_target-IsWellFormed :
    (raw target : Text) (p : Prefix) (s : Spec)
    → IsCanonical p
    → with_target raw target p ≡ ok s
    → IsWellFormed s
unfolding with_target
with_target-IsWellFormed raw target p s c h =
    elim (Bool-cases (to_lower target == target_default)) [
      | inl e ↦
          subst IsWellFormed (ok-injective (rw (e, with_target) at h))
            (record { canonical = c; one_target = inl (refl, refl, refl) })
      | inr e ↦ elim (Bool-cases (to_lower target == target_blackhole)) [
        | inl e' ↦
            subst IsWellFormed (ok-injective (rw (e, e', with_target) at h))
              (record { canonical = c; one_target = inr (inl (refl, refl, refl)) })
        | inr e' ↦
            with_gateway-IsWellFormed raw p (parse_addr target) s c (parse_addr-valid target)
              (rw (e, e', with_target) at h)
      ]
    ]

parse_fields-IsWellFormed :
    (raw : Text) (fs : List Text) (s : Spec) → parse_fields raw fs ≡ ok s → IsWellFormed s
unfolding parse_fields
parse_fields-IsWellFormed raw [] s h = cc h
parse_fields-IsWellFormed raw (a ∷ []) s h = cc h
parse_fields-IsWellFormed raw (a ∷ b ∷ []) s h = cc h
parse_fields-IsWellFormed raw (a ∷ b ∷ c ∷ d ∷ fs) s h = cc h
parse_fields-IsWellFormed raw (a ∷ b ∷ c ∷ []) s h =
    elim (Bool-cases (equal_fold b (codes "via"))) [
      | inl e ↦ elim (Result-cases (parse_one a)) [
        | inl (p, e') ↦
            with_target-IsWellFormed raw c p s (parse_one-IsCanonical a p e')
              (rw (e, e', parse_fields) at h)
        | inr (f, e') ↦ cc (rw (e, e', parse_fields) at h)
      ]
      | inr e ↦ cc (rw (e, parse_fields) at h)
    ]

-- What `ParseSpec` accepts has a canonical prefix and exactly one target, and an explicit gateway is
-- of the prefix's address family.
pub parse_spec-IsWellFormed : (raw : Text) (s : Spec) → parse_spec raw ≡ ok s → IsWellFormed s
unfolding parse_spec
parse_spec-IsWellFormed raw s h = parse_fields-IsWellFormed raw (fields raw) s h

-- Where `ParseSpecs` succeeds it returns one well-formed spec for each entry.
pub parse_specs-All :
    (raw : List Text) (specs : List Spec)
    → parse_specs raw ≡ ok specs
    → (length specs ≡ length raw) × All IsWellFormed specs
unfolding parse_specs
parse_specs-All [] specs h = rw (sym (ok-injective h)) (refl, tt)
parse_specs-All (e ∷ es) specs h = elim (Result-cases (parse_spec e)) [
  | inl (s, k) ↦ elim (Result-cases (parse_specs es)) [
    | inl (ss, k') ↦
        let (n, w) = parse_specs-All es ss k' in
        subst (λ l. (length l ≡ suc (length es)) × All IsWellFormed l)
          (ok-injective (rw (k, k', parse_specs) at h))
          (ap suc n, (parse_spec-IsWellFormed e s k, w))
    | inr (f, k') ↦ cc (rw (k, k', parse_specs) at h)
  ]
  | inr (f, k) ↦ cc (rw (k, parse_specs) at h)
]

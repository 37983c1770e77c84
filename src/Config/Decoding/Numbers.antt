-- ===== src/Config/Decoding/Numbers.antt =====
-- internal/config/config.go: what `UnmarshalYAML` makes of a decimal number with a text behind it, and
-- the range of what it returns.
use cloud_route_manager.Base.{
  ◌≡◌, refl, ap, sym, ◌∙◌, ℕ, ◌*◌, ◌^◌, ◌≤◌, ◌<◌, arith, Text, true, false, inl, inr, [], ◌∷◌, ◌++◌,
  none, some, All, All-weaker, All-append, length, ok, text_eq,
}
use cloud_route_manager.Base.Decimal.{is_digit, itoa, itoa-digits, itoa-length}
use cloud_route_manager.Base.Maps.{lookup}
use cloud_route_manager.Base.Strings.{trim_space, trim_space-none, is_space}
use cloud_route_manager.Time.{Duration, nanoseconds, wrapped, second, unit_map, parse_duration}
use cloud_route_manager.Time.Numbers.{
  IsUnitChar, scan_int-itoa, parse_duration-unknown, parse_duration-unit,
}
use cloud_route_manager.Config.Decoding.{unmarshal, from_trimmed, from_parsed, from_scanned}

-- A text with no digit, dot or space.
abbrev pub IsTail : Text → Type 0
IsTail s = All (λ c. IsUnitChar c × (is_space c ≡ false)) s

IsTail-units : (s : Text) → IsTail s → All IsUnitChar s
IsTail-units s = All-weaker (λ c. IsUnitChar c × (is_space c ≡ false)) IsUnitChar (λ c h. h.0) s

digit-not-space : (c : ℕ) → is_digit c ≡ true → is_space c ≡ false
unfolding is_space
digit-not-space c h = ground arith

-- Digits and a tail have nothing to trim.
trimmed : (n : ℕ) (tail : Text) → IsTail tail → trim_space (itoa n ++ tail) ≡ itoa n ++ tail
trimmed n tail h = trim_space-none (itoa n ++ tail) (
    All-append (λ c. is_space c ≡ false) (itoa n) tail
      (All-weaker (λ c. is_digit c ≡ true) (λ c. is_space c ≡ false) digit-not-space (itoa n)
        (itoa-digits n))
      (All-weaker (λ c. IsUnitChar c × (is_space c ≡ false)) (λ c. is_space c ≡ false) (λ c k. k.1)
        tail h))

module _ (float_product : ℕ → ℕ → ℕ → ℕ) where
  from_trimmed-filled :
      (ds tail : Text) (old : Duration)
      → 1 ≤ length ds
      → from_trimmed float_product (ds ++ tail) old
        ≡ from_parsed float_product (ds ++ tail) (parse_duration float_product (ds ++ tail))
  from_trimmed-filled [] tail old h = absurd (omega arith)
  from_trimmed-filled (c ∷ ds) tail old h = refl

  unmarshal-itoa :
      (n : ℕ) (tail : Text) (old : Duration)
      → IsTail tail
      → unmarshal float_product (ok (itoa n ++ tail)) old
        ≡ from_parsed float_product (itoa n ++ tail) (parse_duration float_product (itoa n ++ tail))
  unfolding unmarshal
  unmarshal-itoa n tail old h =
      ap (λ s. from_trimmed float_product s old) (trimmed n tail h)
      ∙ from_trimmed-filled (itoa n) tail old (itoa-length n)

  -- A number below 2 ^ 63 is accepted with whatever stands behind it that is no known unit and has no
  -- digit, dot or space, nothing included: as that many seconds, wrapped to the 64 bits of a duration.
  pub unmarshal-seconds :
      (n : ℕ) (tail : Text) (old : Duration)
      → IsTail tail
      → lookup tail unit_map ≡ none
      → n < 2 ^ 63
      → unmarshal float_product (ok (itoa n ++ tail)) old ≡ ok (wrapped (n * second))
  unmarshal-seconds n tail old h u l =
      elim (parse_duration-unknown float_product n tail (IsTail-units tail h) u) [
        | inl e ↦
            unmarshal-itoa n tail old h
            ∙ (ap (from_parsed float_product (itoa n ++ tail)) e
                ∙ ap (from_scanned float_product (itoa n ++ tail))
                    (scan_int-itoa n tail (IsTail-units tail h) l))
        | inr (z, e) ↦
            unmarshal-itoa n tail old h
            ∙ (ap (from_parsed float_product (itoa n ++ tail)) e
                ∙ ap (λ k. ok (wrapped (k * second))) (sym z))
      ]

  -- A number with its unit is read exactly, for every duration that 64 bits can hold.
  pub unmarshal-unit :
      (n : ℕ) (name : Text) (unit : ℕ) (old : Duration)
      → IsTail name
      → lookup name unit_map ≡ some unit
      → n * unit < 2 ^ 63
      → unmarshal float_product (ok (itoa n ++ name)) old ≡ ok (nanoseconds (n * unit))
  unmarshal-unit n name unit old h u l =
      unmarshal-itoa n name old h
      ∙ ap (from_parsed float_product (itoa n ++ name))
          (parse_duration-unit float_product n name unit (IsTail-units name h) u l)

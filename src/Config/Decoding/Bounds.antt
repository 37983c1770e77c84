-- ===== src/Config/Decoding/Bounds.antt =====
-- internal/config/config.go: the range of the durations of `UnmarshalYAML`.
use cloud_route_manager.Base.{
  ◌≡◌, ap, sym, ◌∙◌, ℕ, Text, [], ◌∷◌, Option, none, some, Result, ok, err, inl, inr, subst,
  Option-cases, ok-injective,
}
use cloud_route_manager.Base.Strings.{trim_space}
use cloud_route_manager.Time.{Duration, second, parse_duration, scan_int}
use cloud_route_manager.Time.Range.{Fits, times-Fits, parse_duration-Fits}
use cloud_route_manager.Config.Decoding.{unmarshal, from_trimmed, from_parsed, from_scanned}

module _ (float_product : ℕ → ℕ → ℕ → ℕ) where
  from_scanned-Fits :
      (raw : Text) (o : Option Duration) (d : Duration)
      → from_scanned float_product raw o ≡ ok d
      → Fits d
  from_scanned-Fits raw none d h = cc h
  from_scanned-Fits raw (some s) d h = subst Fits (ok-injective h) (times-Fits s second)

  from_trimmed-Fits :
      (s : Text) (old d : Duration) → Fits old → from_trimmed float_product s old ≡ ok d → Fits d
  from_trimmed-Fits [] old d k h = subst Fits (ok-injective h) k
  from_trimmed-Fits (c ∷ s) old d k h = elim (Option-cases (parse_duration float_product (c ∷ s))) [
    | inl e ↦
        from_scanned-Fits (c ∷ s) (scan_int (c ∷ s)) d
          (sym (ap (from_parsed float_product (c ∷ s)) e) ∙ h)
    | inr (d', e) ↦
        subst Fits (ok-injective (sym (ap (from_parsed float_product (c ∷ s)) e) ∙ h))
          (parse_duration-Fits float_product (c ∷ s) d' e)
  ]

  -- A duration that `UnmarshalYAML` stores is an integer of 64 bits, if the one before the call was.
  pub unmarshal-Fits :
      (raw : Result Text) (old d : Duration)
      → Fits old
      → unmarshal float_product raw old ≡ ok d
      → Fits d
  unfolding unmarshal
  unmarshal-Fits (err e) old d k h = cc h
  unmarshal-Fits (ok raw) old d k h = from_trimmed-Fits (trim_space raw) old d k h

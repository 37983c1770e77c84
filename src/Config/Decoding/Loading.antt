-- ===== src/Config/Decoding/Loading.antt =====
-- internal/config/config.go: what `Load` returns.
use cloud_route_manager.Base.{
  ◌≡◌, refl, sym, ◌∙◌, Text, Option, none, some, inl, inr, Error, Result, ok, err, Result-cases,
  ok-injective, wrapf, ap, wrap_err, ◌>>=◌, [],
}
use cloud_route_manager.Config.{Config, defaults, validate}
use cloud_route_manager.Config.Accepted.{IsUsable, validate_iff}
use cloud_route_manager.Config.Decoding.{unless_invalid, parse, load}

unless_invalid-ok :
    (c d : Config) (o : Option Error) → unless_invalid c o ≡ ok d → (o ≡ none) × (c ≡ d)
unless_invalid-ok c d none h = (refl, ok-injective h)
unless_invalid-ok c d (some e) h = cc h

module _ (decode : Text → Config → Result Config) where
  parse-ok :
      (text : Text) (c : Config)
      → parse decode text ≡ ok c
      → (decode text defaults ≡ ok c) × (validate c ≡ none)
  unfolding parse
  parse-ok text c h = elim (Result-cases (decode text defaults)) [
    | inl (d, e) ↦
        let step : (unless_invalid d (validate d)) ≡ ok c =
          sym (ap (λ r. wrap_err "parse config: %w" [] r >>= λ d. unless_invalid d (validate d)) e)
          ∙ h in
        let (v, q) = unless_invalid-ok d c (validate d) step in
        (e ∙ ap (λ d. ok d) q, sym (ap validate q) ∙ v)
    | inr (x, e) ↦
        let step : err (wrapf "parse config: %w" [] x) ≡ ok c =
          sym (ap (λ r. wrap_err "parse config: %w" [] r >>= λ d. unless_invalid d (validate d)) e)
          ∙ h in
        cc step
  ]

  -- What `Load` returns is what the decoder made of the file and the defaults, and it is usable.
  pub load-IsUsable :
      (read_file : Text → Result Text) (path : Text) (c : Config)
      → load decode read_file path ≡ ok c
      → (text : Text) × (read_file path ≡ ok text) × (decode text defaults ≡ ok c) × IsUsable c
  unfolding load
  load-IsUsable read_file path c h = elim (Result-cases (read_file path)) [
    | inl (text, e) ↦
        let step : parse decode text ≡ ok c =
          sym (ap (λ r. wrap_err "read config: %w" [] r >>= parse decode) e) ∙ h in
        let (d, v) = parse-ok text c step in (text, e, d, (validate_iff c).0 v)
    | inr (x, e) ↦
        let step : err (wrapf "read config: %w" [] x) ≡ ok c =
          sym (ap (λ r. wrap_err "read config: %w" [] r >>= parse decode) e) ∙ h in
        cc step
  ]

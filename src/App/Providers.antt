-- ===== src/App/Providers.antt =====
-- internal/app/app.go: `resolveProvider` and `newManager`. The probes of the metadata service are the
-- model's; the manager of each cloud is a parameter.
use cloud_route_manager.Base.{◌≡◌, ap, Text, text_eq, codes, ◌==◌, if◌then◌else◌, Result, ok}
use cloud_route_manager.Base.Strings.{to_lower, trim_space}
use cloud_route_manager.Http.{Context, Host}
use cloud_route_manager.Cloud.{Provider, aws, yandex, provider_string}
use cloud_route_manager.Cloud.Detection.{detect}

module _ (host : Host) where
  open host use {World}

  unfoldable pub provider_by : Context → Text → World → Result Provider × World
  provider_by ctx word w =
      let detected = detect host ctx w in
      if word == codes "aws"
      then (ok aws, w)
      else if word == codes "yandex"
      then (ok yandex, w)
      else detected

  -- `resolveProvider`
  unfoldable pub resolve_provider : Context → Text → World → Result Provider × World
  resolve_provider ctx configured w = provider_by ctx (to_lower (trim_space configured)) w

  -- `newManager`; a `Provider` of the model is one of the two that the switch knows.
  unfoldable pub new_manager {ℓ} :
      {M : Type ℓ}
      → (World → Result M × World)
      → (World → Result M × World)
      → Provider
      → World
      → Result M × World
  new_manager aws_manager yandex_manager aws w = aws_manager w
  new_manager aws_manager yandex_manager yandex w = yandex_manager w

  -- A configured cloud is taken at its word, and no request is sent for it.
  pub resolve_provider-configured :
      (ctx : Context) (configured : Text) (p : Provider) (w : World)
      → to_lower (trim_space configured) ≡ provider_string p
      → resolve_provider ctx configured w ≡ (ok p, w)
  unfolding resolve_provider provider_by text_eq
  resolve_provider-configured ctx configured aws w h = ap (λ t. provider_by ctx t w) h
  resolve_provider-configured ctx configured yandex w h = ap (λ t. provider_by ctx t w) h

-- ===== src/Cloud/Detection/Probes.antt =====
-- internal/cloud/detect.go: which cloud the probes find.
use cloud_route_manager.Base.{
  ◌≡◌, refl, ap, ◌∙◌, Text, codes, Bool, true, false, ◌||◌, [], ◌∷◌, none, errorf, Result, ok, err,
  if◌then◌else◌,
}
use cloud_route_manager.Base.Maps.{Map}
use cloud_route_manager.Http.{Context, with_timeout, Host}
use cloud_route_manager.Cloud.{Provider, aws, yandex}
use cloud_route_manager.Cloud.Detection.{
  probe_request, is_ok, probe_checked, probe, token_url, id_url, yandex_url, or_plain_read,
  aws_checked, is_aws, is_yandex, metadata_base, if_yandex, if_aws, detect, detect_timeout,
}

module _ (host : Host) where
  open host use {World, now, check_url, send}

  -- A metadata service whose answers stay the same: for a method and a URL, whether it answers with 200.
  pub record IsSteady (answers : Text → Text → Bool) : Type 0 where
    pub valid : (url : Text) → check_url url ≡ none
    pub steady :
        (ctx : Context) (method url : Text) (headers : Map Text Text) (w : World)
        → (is_ok host (send (probe_request host ctx method url headers) w)).0 ≡ answers method url

  module _ (answers : Text → Text → Bool) (s : IsSteady answers) where
    probe-steady :
        (ctx : Context) (url : Text) (headers : Map Text Text) (w : World)
        → (probe host ctx url headers w).0 ≡ answers (codes "GET") url
    unfolding probe
    probe-steady ctx url headers w =
        ap (λ o. (probe_checked host ctx url headers o w).0) (s.valid url)
        ∙ s.steady ctx (codes "GET") url headers w

    or_plain_read-steady :
        (ctx : Context) (base : Text) (out : Bool × World)
        → (or_plain_read host ctx base out).0 ≡ (out.0 || answers (codes "GET") (id_url host base))
    or_plain_read-steady ctx base (true, w) = refl
    or_plain_read-steady ctx base (false, w) = probe-steady ctx (id_url host base) [] w

    is_aws-steady :
        (ctx : Context) (base : Text) (w : World)
        → (is_aws host ctx base w).0 ≡ (
            answers (codes "PUT") (token_url host base) || answers (codes "GET") (id_url host base))
    unfolding is_aws
    is_aws-steady ctx base w =
        ap (λ o. (aws_checked host (with_timeout ctx detect_timeout (now w)) base o w).0)
          (s.valid (token_url host base))
        ∙ (or_plain_read-steady _ base _
            ∙ ap (λ b. b || answers (codes "GET") (id_url host base))
                (s.steady _ (codes "PUT") (token_url host base) _ w))

    is_yandex-steady :
        (ctx : Context) (base : Text) (w : World)
        → (is_yandex host ctx base w).0 ≡ answers (codes "GET") (yandex_url host base)
    unfolding is_yandex
    is_yandex-steady ctx base w = probe-steady _ (yandex_url host base) _ w

    -- What is found, from the three answers.
    abbrev pub found : Text → Result Provider
    found base =
        if answers (codes "PUT") (token_url host base) || answers (codes "GET") (id_url host base)
        then ok aws
        else if answers (codes "GET") (yandex_url host base)
        then ok yandex
        else err (
            errorf
              "cannot detect the cloud provider from instance metadata at %s; set general.cloud explicitly"
              (base ∷ []))

    if_yandex-steady :
        (base : Text) (out : Bool × World) (b : Bool)
        → out.0 ≡ b
        → (if_yandex host base out).0 ≡ (
            if b
            then ok yandex
            else err (
                errorf
                  "cannot detect the cloud provider from instance metadata at %s; set general.cloud explicitly"
                  (base ∷ [])))
    if_yandex-steady base (true, w) b h = rw⁻¹ h refl
    if_yandex-steady base (false, w) b h = rw⁻¹ h refl

    if_aws-steady :
        (ctx : Context) (base : Text) (out : Bool × World)
        → out.0 ≡ (
            answers (codes "PUT") (token_url host base) || answers (codes "GET") (id_url host base))
        → (if_aws host ctx base out).0 ≡ found base
    if_aws-steady ctx base (true, w) h = rw⁻¹ h refl
    if_aws-steady ctx base (false, w) h =
        rw⁻¹ h (if_yandex-steady base _ _ (is_yandex-steady ctx base w))

    -- `Detect` finds AWS where the token call or else the plain read is answered, then Yandex Cloud where
    -- its own read is, and no cloud otherwise.
    pub detect-found :
        (ctx : Context) (w : World) → (detect host ctx w).0 ≡ found (metadata_base host)
    unfolding detect
    detect-found ctx w =
        if_aws-steady ctx (metadata_base host) _ (is_aws-steady ctx (metadata_base host) w)

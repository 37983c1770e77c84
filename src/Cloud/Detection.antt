-- ===== src/Cloud/Detection.antt =====
-- internal/cloud/detect.go: the probes of the instance metadata service. The HTTP client is a parameter.
-- Draining a body is left out, since nothing is read of it.
pub mod Probes
use cloud_route_manager.Base.{
  ℕ, ◌+◌, ◌*◌, Text, codes, Bool, true, false, not, ◌=ℕ◌, List, [], ◌∷◌, ◌++◌, Option, none, some,
  Error, errorf, Result, ok, err, if◌then◌else◌, is_empty,
}
use cloud_route_manager.Base.Maps.{Map}
use cloud_route_manager.Base.Strings.{trim_space, trim_suffix}
use cloud_route_manager.Time.{second}
use cloud_route_manager.Http.{Context, with_timeout, Request, Response, Host}
use cloud_route_manager.Cloud.{Provider, aws, yandex}

abbrev pub detect_timeout : ℕ
detect_timeout = 3 * second

module _ (host : Host) where
  open host use {World, getenv, now, check_url, send}

  abbrev pub probe_request : Context → Text → Text → Map Text Text → Request
  probe_request ctx method url headers = record {
    context = ctx;
    method = method;
    url = url;
    headers = headers;
    body = none;
  }

  abbrev pub is_ok : Result Response × World → Bool × World
  is_ok (err e, w) = (false, w)
  is_ok (ok resp, w) = (resp.status_code =ℕ 200, w)

  abbrev pub probe_checked : Context → Text → Map Text Text → Option Error → World → Bool × World
  probe_checked ctx url headers (some e) w = (false, w)
  probe_checked ctx url headers none w =
      is_ok (send (probe_request ctx (codes "GET") url headers) w)

  -- `probe`
  unfoldable pub probe : Context → Text → Map Text Text → World → Bool × World
  probe ctx url headers w = probe_checked ctx url headers (check_url url) w

  abbrev pub token_url : Text → Text
  token_url base = base ++ codes "/latest/api/token"

  abbrev pub id_url : Text → Text
  id_url base = base ++ codes "/latest/meta-data/instance-id"

  abbrev pub token_headers : Map Text Text
  token_headers = (codes "X-aws-ec2-metadata-token-ttl-seconds", codes "60") ∷ []

  -- The plain read where the token call was not answered with 200, failed ones included.
  abbrev pub or_plain_read : Context → Text → Bool × World → Bool × World
  or_plain_read ctx base (true, w) = (true, w)
  or_plain_read ctx base (false, w) = probe ctx (id_url base) [] w

  abbrev pub aws_checked : Context → Text → Option Error → World → Bool × World
  aws_checked ctx base (some e) w = (false, w)
  aws_checked ctx base none w =
      or_plain_read ctx base
        (is_ok (send (probe_request ctx (codes "PUT") (token_url base) token_headers) w))

  -- `isAWS`
  unfoldable pub is_aws : Context → Text → World → Bool × World
  is_aws ctx base w =
      aws_checked (with_timeout ctx detect_timeout (now w)) base (check_url (token_url base)) w

  abbrev pub yandex_url : Text → Text
  yandex_url base = base ++ codes "/computeMetadata/v1/instance/id"

  -- `isYandex`
  unfoldable pub is_yandex : Context → Text → World → Bool × World
  is_yandex ctx base w =
      probe (with_timeout ctx detect_timeout (now w)) (yandex_url base)
        ((codes "Metadata-Flavor", codes "Google") ∷ []) w

  unfoldable pub metadata_base : Text
  metadata_base =
      if not (is_empty (trim_space (getenv (codes "CRM_METADATA_URL"))))
      then trim_suffix b'/' (trim_space (getenv (codes "CRM_METADATA_URL")))
      else codes "http://169.254.169.254"

  abbrev pub if_yandex : Text → Bool × World → Result Provider × World
  if_yandex base (true, w) = (ok yandex, w)
  if_yandex base (false, w) = (
    err (
        errorf
          "cannot detect the cloud provider from instance metadata at %s; set general.cloud explicitly"
          (base ∷ [])),
    w,
  )

  abbrev pub if_aws : Context → Text → Bool × World → Result Provider × World
  if_aws ctx base (true, w) = (ok aws, w)
  if_aws ctx base (false, w) = if_yandex base (is_yandex ctx base w)

  -- `Detect`
  unfoldable pub detect : Context → World → Result Provider × World
  detect ctx w = if_aws ctx metadata_base (is_aws ctx metadata_base w)

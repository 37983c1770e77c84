-- ===== src/Metadata.antt =====
-- internal/cloud/yandex/metadata.go: the client of the instance metadata service, and its cache of one
-- token. `json.Unmarshal` at the payload of a token is a parameter. The mutex is left out, since a call
-- of `Token` holds it until it returns.
pub mod Tokens
pub mod Validity
use cloud_route_manager.Base.{
  ℕ, ◌+◌, ◌-◌, ◌*◌, ◌^◌, zero, suc, Text, codes, Bool, true, false, not, ◌&&◌, ◌=ℕ◌, List, [], ◌∷◌,
  ◌++◌, Option, none, some, Error, errorf, wrapf, Result, ok, err, if◌then◌else◌, is_empty, ltb,
}
use cloud_route_manager.Base.Strings.{trim_space, trim_suffix, trim_prefix}
use cloud_route_manager.Time.{Duration, negative, nanoseconds, times, second}
use cloud_route_manager.Http.{Context, Request, Response, Host}

-- `MetadataClient`; the time is in nanoseconds, and zero before the first token.
pub record MetadataClient : Type 0 where
  pub base_url : Text
  pub token : Text
  pub token_exp : ℕ

-- What the token endpoint answers. `expires_in` is an `int64`.
pub record Payload : Type 0 where
  pub access_token : Text
  pub expires_in : Duration

abbrev pub hour : ℕ
hour = 3_600 * second

abbrev pub minute : ℕ
minute = 60 * second

-- `ttl`, with the hour that stands for a lifetime that is not positive.
abbrev pub positive_ttl : Duration → ℕ
positive_ttl (nanoseconds (suc n)) = suc n
positive_ttl _ = hour

unfoldable pub ttl : Duration → ℕ
ttl expires_in = positive_ttl (times expires_in second)

-- The first variable that is not blank.
abbrev pub or_default : Text → Text → Text
or_default d [] = d
or_default d (c ∷ v) = c ∷ v

module _ (host : Host) (decode_token : Text → Result Payload) where
  open host use {World, getenv, now, check_url, send}

  -- `NewMetadataClient`
  unfoldable pub new_metadata_client : MetadataClient
  new_metadata_client = record {
    base_url = trim_suffix b'/' (
        or_default (codes "http://169.254.169.254")
          (trim_space (getenv (codes "YC_METADATA_URL"))));
    token = [];
    token_exp = 0;
  }

  abbrev read_status : Text → Response → Result Text → Result Text
  read_status path resp (err e) = err (wrapf "metadata %s: %w" (path ∷ []) e)
  read_status path resp (ok body) =
      if not (resp.status_code =ℕ 200)
      then err (
          errorf "metadata %s: unexpected status %s: %s"
            (path ∷ resp.status ∷ trim_space body ∷ []))
      else ok body

  abbrev read_answer : Text → Result Response × World → Result Text × World
  read_answer path (err e, w) = (err (wrapf "metadata %s: %w" (path ∷ []) e), w)
  read_answer path (ok resp, w) = (read_status path resp (resp.read_all (2 ^ 20)), w)

  abbrev metadata_request : Context → Text → Request
  metadata_request ctx url = record {
    context = ctx;
    method = codes "GET";
    url = url;
    headers = (codes "Metadata-Flavor", codes "Google") ∷ [];
    body = none;
  }

  abbrev send_checked : Context → Text → Text → Option Error → World → Result Text × World
  send_checked ctx path url (some e) w = (err e, w)
  send_checked ctx path url none w = read_answer path (send (metadata_request ctx url) w)

  abbrev metadata_url : Text → Text → Text
  metadata_url base path = base ++ (codes "/computeMetadata/v1/" ++ trim_prefix b'/' path)

  -- `Get`
  unfoldable pub get : MetadataClient → Context → Text → World → Result Text × World
  get c ctx path w =
      send_checked ctx path (metadata_url c.base_url path)
        (check_url (metadata_url c.base_url path)) w

  -- `Attribute`, `InstanceID`
  unfoldable pub attribute : MetadataClient → Context → Text → World → Result Text × World
  attribute c ctx key w = get c ctx (codes "instance/attributes/" ++ key) w

  unfoldable pub instance_id : MetadataClient → Context → World → Result Text × World
  instance_id c ctx w = get c ctx (codes "instance/id") w

  -- The token of the environment, if there is one.
  unfoldable pub env_token : List Text → Option Text
  env_token [] = none
  env_token (env ∷ envs) =
      let rest = env_token envs in
      if not (is_empty (trim_space (getenv env))) then some (trim_space (getenv env)) else rest

  abbrev store : MetadataClient → Result Payload → World → Result Text × MetadataClient × World
  store c (err e) w = (err (wrapf "iam token: decode response: %w" [] e), c, w)
  store c (ok p) w =
      if is_empty p.access_token
      then (err (errorf "iam token: empty access_token in metadata response" []), c, w)
      else (
        ok p.access_token,
        record c { token = p.access_token; token_exp = now w + ttl p.expires_in - minute },
        w,
      )

  abbrev fetched : MetadataClient → Result Text × World → Result Text × MetadataClient × World
  fetched c (err e, w) =
      (err (wrapf "iam token: %w (is a service account attached to the instance?)" [] e), c, w)
  fetched c (ok raw, w) = store c (decode_token raw) w

  abbrev pub token_path : Text
  token_path = codes "instance/service-accounts/default/token"

  -- `Token`, where the environment has none.
  unfoldable pub cached_token :
      MetadataClient → Context → World → Result Text × MetadataClient × World
  cached_token c ctx w =
      if not (is_empty c.token) && ltb (now w) c.token_exp
      then (ok c.token, c, w)
      else fetched c (get c ctx token_path w)

  abbrev from_env :
      Option Text → MetadataClient → Context → World → Result Text × MetadataClient × World
  from_env (some v) c ctx w = (ok v, c, w)
  from_env none c ctx w = cached_token c ctx w

  -- `Token`
  unfoldable pub iam_token : MetadataClient → Context → World → Result Text × MetadataClient × World
  iam_token c ctx w = from_env (env_token (codes "YC_IAM_TOKEN" ∷ codes "YC_TOKEN" ∷ [])) c ctx w

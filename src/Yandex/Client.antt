-- ===== src/Yandex/Client.antt =====
-- internal/cloud/yandex/routes.go: the calls of the VPC service and of its operations over HTTP, which
-- fill `RouteTables`. `json.Marshal` and `json.Unmarshal` at their types are parameters, and so is the
-- `select` on the ticker and the context.
pub mod Waiting
pub mod Requests
pub mod Outcomes
pub mod Answers
pub mod Faithful
use cloud_route_manager.Base.{
  ℕ, zero, suc, ◌+◌, ◌*◌, ◌^◌, Text, codes, Bool, true, false, not, ◌&&◌, ◌||◌, ◌==◌, text_eq, ◌/◌,
  wrap_err, ltb, leb, List, [], ◌∷◌, ◌++◌, Option, none, some, Error, errorf, wrapf, Result, ok,
  err, if◌then◌else◌, is_empty,
}
use cloud_route_manager.Base.Decimal.{itoa, ℤ, is_zero, int_string}
use cloud_route_manager.Base.Maps.{Map}
use cloud_route_manager.Base.Strings.{trim_space, trim_suffix}
use cloud_route_manager.Time.{Duration, second}
use cloud_route_manager.Http.{Context, with_timeout, Request, Response, Host}
use cloud_route_manager.Metadata.{
  MetadataClient, Payload, or_default, new_metadata_client, iam_token,
}
use cloud_route_manager.Yandex.{Row, RouteTables}

-- The field `error` of an operation.
pub record Failure : Type 0 where
  pub code : ℤ
  pub message : Text

-- `operation`
pub record Operation : Type 0 where
  pub id : Text
  pub done : Bool
  pub error : Option Failure

-- `routeTable`
pub record RouteTable : Type 0 where
  pub id : Text
  pub name : Text
  pub static_routes : List Row

-- The codecs of `encoding/json`, and the `select` of `waitOperation`: the error of the context, or a
-- tick. It is given the time at which the ticker was started and how many ticks were received.
pub record Runtime (host : Host) : Type 0 where
  pub decode_token : Text → Result Payload
  pub decode_operation : Text → Result Operation
  pub decode_table : Text → Result RouteTable
  pub encode_update : List Row → Result Text
  pub select : Context → ℕ → ℕ → host.World → Option Error × host.World

-- `Manager`; its metadata client is a part of the state.
pub record Manager : Type 0 where
  pub vpc_endpoint : Text
  pub op_endpoint : Text
  pub op_timeout : ℕ

-- `operation.err`
abbrev pub failed : Text → Option Failure → Option Error
failed id none = none
failed id (some f) =
    if not (is_empty f.message) || not (is_zero f.code)
    then some (errorf "operation %s failed: code %d: %s" (id ∷ int_string f.code ∷ f.message ∷ []))
    else none

unfoldable pub operation_err : Operation → Option Error
operation_err op = failed op.id op.error

module _ (host : Host) (runtime : Runtime host) where
  open host use {World, getenv, now, check_url, send}
  open runtime use {decode_token, decode_operation, decode_table, encode_update, select}

  -- `endpointFromEnv`
  unfoldable pub endpoint_from_env : Text → Text → Text
  endpoint_from_env env def =
      if not (is_empty (trim_space (getenv env)))
      then trim_suffix b'/' (trim_space (getenv env))
      else def

  abbrev managed :
      MetadataClient
      → Result Text × MetadataClient × World
      → Result (Manager × MetadataClient) × World
  managed meta (err e, c, w) = (err e, w)
  managed meta (ok t, c, w) = (
    ok (
      record {
        vpc_endpoint =
            endpoint_from_env (codes "YC_VPC_ENDPOINT") (codes "https://vpc.api.cloud.yandex.net");
        op_endpoint =
            endpoint_from_env (codes "YC_OPERATION_ENDPOINT")
              (codes "https://operation.api.cloud.yandex.net");
        op_timeout = 60 * second;
      },
      c,
    ),
    w,
  )

  -- `NewManager`
  unfoldable pub new_manager : Context → World → Result (Manager × MetadataClient) × World
  new_manager ctx w =
      managed (new_metadata_client host decode_token)
        (iam_token host decode_token (new_metadata_client host decode_token) ctx w)

  abbrev check_status : Text → Text → Response → Result Text → Result Text
  check_status method url resp (err e) =
      err (wrapf "%s %s: read response: %w" (method ∷ url ∷ []) e)
  check_status method url resp (ok raw) =
      if ltb resp.status_code 200 || leb 300 resp.status_code
      then err (errorf "%s %s: %s: %s" (method ∷ url ∷ resp.status ∷ trim_space raw ∷ []))
      else ok raw

  abbrev reply :
      Text → Text → MetadataClient → Result Response × World → Result Text × MetadataClient × World
  reply method url c (err e, w) = (err (wrapf "%s %s: %w" (method ∷ url ∷ []) e), c, w)
  reply method url c (ok resp, w) =
      (check_status method url resp (resp.read_all (8 * 2 ^ 20)), c, w)

  abbrev content_type : Option Text → Map Text Text
  content_type none = []
  content_type (some b) = (codes "Content-Type", codes "application/json") ∷ []

  abbrev pub api_request : Context → Text → Text → Option Text → Text → Request
  api_request ctx method url body token = record {
    context = ctx;
    method = method;
    url = url;
    headers = (codes "Authorization", codes "Bearer " ++ token) ∷ content_type body;
    body = body;
  }

  abbrev with_token :
      Context
      → Text
      → Text
      → Option Text
      → Result Text × MetadataClient × World
      → Result Text × MetadataClient × World
  with_token ctx method url body (err e, c, w) = (err e, c, w)
  with_token ctx method url body (ok token, c, w) =
      reply method url c (send (api_request ctx method url body token) w)

  abbrev with_url :
      Context
      → Text
      → Text
      → Option Text
      → Option Error
      → MetadataClient
      → World
      → Result Text × MetadataClient × World
  with_url ctx method url body (some e) c w = (err e, c, w)
  with_url ctx method url body none c w =
      with_token ctx method url body (iam_token host decode_token c ctx w)

  -- `do`, up to the body of the response. The input is what `json.Marshal` makes of it.
  unfoldable pub do_raw :
      Context
      → Text
      → Text
      → Option (Result Text)
      → MetadataClient
      → World
      → Result Text × MetadataClient × World
  do_raw ctx method url none c w = with_url ctx method url none (check_url url) c w
  do_raw ctx method url (some (err e)) c w = (err (wrapf "encode request: %w" [] e), c, w)
  do_raw ctx method url (some (ok b)) c w = with_url ctx method url (some b) (check_url url) c w

  abbrev decoded {ℓ} :
      {A : Type ℓ}
      → (Text → Result A)
      → Text
      → Text
      → Result Text × MetadataClient × World
      → Result A × MetadataClient × World
  decoded decode method url (err e, c, w) = (err e, c, w)
  decoded decode method url (ok raw, c, w) =
      (wrap_err "%s %s: decode response: %w" (method ∷ url ∷ []) (decode raw), c, w)

  -- `do`, with the decoder of its output.
  unfoldable pub do_into {ℓ} :
      {A : Type ℓ}
      → (Text → Result A)
      → Context
      → Text
      → Text
      → Option (Result Text)
      → MetadataClient
      → World
      → Result A × MetadataClient × World
  do_into decode ctx method url body c w =
      decoded decode method url (do_raw ctx method url body c w)

  abbrev rows_of :
      Result RouteTable × MetadataClient × World → Result (List Row) × MetadataClient × World
  rows_of (err e, c, w) = (err e, c, w)
  rows_of (ok t, c, w) = (ok t.static_routes, c, w)

  -- What the loop of `waitOperation` returns, with the state behind it.
  abbrev pub Waited : Type 0
  Waited = Option Error × MetadataClient × World

  -- The operation as a tick has found it: its error, and whether it is done.
  abbrev pub answered :
      (MetadataClient → World → Waited) → Option Error → Bool → MetadataClient → World → Waited
  answered again (some e) done c w = (some e, c, w)
  answered again none true c w = (none, c, w)
  answered again none false c w = again c w

  -- The branch of a tick, behind its request.
  abbrev pub polled :
      (MetadataClient → World → Waited) → Result Operation × MetadataClient × World → Waited
  polled again (err e, c, w) = (some e, c, w)
  polled again (ok cur, c, w) = answered again (operation_err cur) cur.done c w

  abbrev pub operation_url : Manager → Text → Text
  operation_url m id = m.op_endpoint ++ (codes "/operations/" ++ id)

  abbrev pub selected : Text → (World → Waited) → MetadataClient → Option Error × World → Waited
  selected id on_tick c (some e, w) = (some (wrapf "operation %s: %w" (id ∷ []) e), c, w)
  selected id on_tick c (none, w) = on_tick w

  -- The loop of `waitOperation`. The fuel is the number of ticks that may still be received.
  unfoldable pub poll : ℕ → Manager → Context → ℕ → ℕ → Text → MetadataClient → World → Waited
  poll zero m ctx start ticks id c w = (some (errorf "out of fuel" []), c, w)
  poll (suc fuel) m ctx start ticks id c w =
      selected id
        (λ w'.
          polled (λ c' w''. poll fuel m ctx start (ticks + 1) id c' w'')
            (do_into decode_operation ctx (codes "GET") (operation_url m id) none c w'))
        c (select ctx start ticks w)

  -- A tick for each second of the timeout.
  abbrev pub poll_fuel : Manager → ℕ
  poll_fuel m = suc (m.op_timeout / second)

  abbrev unfinished : Manager → Context → Operation → Option Error → MetadataClient → World → Waited
  unfinished m ctx op (some e) c w = (some e, c, w)
  unfinished m ctx op none c w =
      let waited =
        poll (poll_fuel m) m (with_timeout ctx m.op_timeout (now w)) (now w) 0 op.id c w in
      if op.done || is_empty op.id then (none, c, w) else waited

  -- `waitOperation`
  unfoldable pub wait_operation : Manager → Context → Operation → MetadataClient → World → Waited
  wait_operation m ctx op c w = unfinished m ctx op (operation_err op) c w

  abbrev started : Manager → Context → Result Operation × MetadataClient × World → Waited
  started m ctx (err e, c, w) = (some e, c, w)
  started m ctx (ok op, c, w) = wait_operation m ctx op c w

  abbrev pub table_url : Manager → Text → Text
  table_url m id = m.vpc_endpoint ++ (codes "/vpc/v1/routeTables/" ++ id)

  abbrev regroup {ℓ} : {A : Type ℓ} → A × MetadataClient × World → A × (MetadataClient × World)
  regroup (a, c, w) = (a, (c, w))

  -- The state of the calls of the service.
  abbrev pub State : Type 0
  State = MetadataClient × World

  -- `getRouteTable`
  unfoldable pub get_route_table : Manager → Context → Text → State → Result (List Row) × State
  get_route_table m ctx id (c, w) =
      regroup (rows_of (do_into decode_table ctx (codes "GET") (table_url m id) none c w))

  -- `updateStaticRoutes`
  unfoldable pub update_static_routes :
      Manager → Context → Text → List Row → State → Option Error × State
  update_static_routes m ctx id rows (c, w) = regroup (
      started m ctx (
        do_into decode_operation ctx (codes "PATCH") (table_url m id) (some (encode_update rows)) c
          w))

  -- The service that the manager of the route tables calls.
  abbrev pub service : Manager → Context → RouteTables
  service m ctx = record {
    World = State;
    get_route_table = get_route_table m ctx;
    update_static_routes = update_static_routes m ctx;
  }

-- ===== src/Tests/Client.antt =====
-- A machine for the clients of Yandex Cloud, and the theorems on them at it. A world is a time and how
-- many requests other than GET were sent.
use cloud_route_manager.Base.{
  ◌≡◌, refl, ap, sym, ◌∙◌, ℕ, ◌+◌, ◌*◌, ◌≤◌, arith, text_eq, codes, Bool, true, false, [], ◌∷◌,
  ◌==◌, none, some, Option, Error, errorf, Result, ok, err, if◌then◌else◌, leb, ◌⊎◌, ◌||◌, is_empty,
}
use cloud_route_manager.Base.Strings.{trim_space, trim_left, trim_right}
use cloud_route_manager.Netip.{v4}
use cloud_route_manager.Time.{nanoseconds, second}
use cloud_route_manager.Http.{Context, Request, Response, Host, with_timeout}
use cloud_route_manager.Metadata.{MetadataClient, Payload, iam_token, cached_token, get, env_token}
use cloud_route_manager.Yandex.{sync}
use cloud_route_manager.Yandex.Client.{
  Runtime, Manager, Operation, operation_err, do_raw, do_into, poll, wait_operation,
  update_static_routes, service, table_url,
}
use cloud_route_manager.Yandex.Client.Waiting.{IsTimed, poll-fuel}
use cloud_route_manager.Yandex.Client.Outcomes.{IsConfirmed, IsQuiet, update_static_routes-none}
use cloud_route_manager.Yandex.Client.Requests.{seen-sync}

abbrev World : Type 0
World = ℕ × ℕ

abbrev response : Response
response = record { status_code = 200; status = codes "200 OK"; read_all = λ limit. ok [] }

abbrev expired : Context → ℕ → Bool
expired none now = false
expired (some d) now = leb d now

unfoldable send : Request → World → Result Response × World
send req (t, n) = (
  if expired req.context t then err (errorf "context deadline exceeded" []) else ok response,
  (t + 1, if req.method == codes "GET" then n else n + 1),
)

abbrev host : Host
host = record {
  World = World;
  getenv = λ name. [];
  now = λ w. w.0;
  check_url = λ url. none;
  send = send;
}

abbrev payload : Payload
payload = record { access_token = codes "t"; expires_in = nanoseconds 3_600 }

abbrev operation : Operation
operation = record { id = codes "op"; done = true; error = none }

-- Ticks come when they are due, until the deadline.
unfoldable select : Context → ℕ → ℕ → World → Option Error × World
select ctx start ticks w = (
  if expired ctx (start + (ticks + 1) * second)
      then some (errorf "context deadline exceeded" [])
      else none,
  (start + (ticks + 1) * second, w.1),
)

abbrev runtime : Runtime host
runtime = record {
  decode_token = λ text. ok payload;
  decode_operation = λ text. ok operation;
  decode_table = λ text. ok (record { id = codes "rt"; name = []; static_routes = [] });
  encode_update = λ rows. ok [];
  select = select;
}

abbrev manager : Manager
manager = record {
  vpc_endpoint = codes "https://vpc";
  op_endpoint = codes "https://op";
  op_timeout = 60 * second;
}

abbrev client : MetadataClient
client = record { base_url = codes "http://md"; token = []; token_exp = 0 }

expired_fails :
    (req : Request) (w : World) (d : ℕ)
    → req.context ≡ some d
    → d ≤ w.0
    → (e : Error) × ((send req w).0 ≡ err e)
unfolding send
expired_fails req (t, n) d h l =
    let late : leb d t ≡ true = ground (arith, l) in
    (
      errorf "context deadline exceeded" [],
      ap (λ b. if b then err (errorf "context deadline exceeded" []) else ok response)
          (ap (λ c. expired c t) h ∙ late),
    )

forward : (req : Request) (w : World) → w.0 ≤ (send req w).1.0
unfolding send
forward req (t, n) = omega arith

timed : IsTimed host runtime
unfolding select
timed = record {
  send_forward = forward;
  expired = expired_fails;
  ticked = λ ctx start ticks w w' h. omega (arith, ap (λ (r : Option Error × World). r.1.0) h);
}

poll-fuel_example :
    poll host runtime 70 manager (with_timeout none (60 * second) 0) 0 0 (codes "op") client (0, 0)
    ≡ poll host runtime 61 manager
        (with_timeout none (60 * second) 0)
        0
        0
        (codes "op")
        client
        (0, 0)
poll-fuel_example =
    poll-fuel host runtime timed 70 manager none (codes "op") client (0, 0) (omega arith)

abbrev updated : Option Error × (MetadataClient × World)
updated = update_static_routes host runtime manager none (codes "rt") [] (client, (0, 0))

updated_none : updated.0 ≡ none
unfolding update_static_routes do_into do_raw iam_token env_token cached_token get wait_operation
    operation_err send trim_space trim_left trim_right text_eq
updated_none = refl

update_static_routes-none_example :
    (op : Operation) × ((do_into host runtime runtime.decode_operation none
        (codes "PATCH")
        (table_url host runtime manager (codes "rt"))
        (some (ok []))
        client
        (0, 0)).0
      ≡ ok op)
    × IsQuiet host runtime op
    × (((op.done || is_empty op.id) ≡ true)
        ⊎ IsConfirmed host runtime manager op.id updated.1.0 updated.1.1)
update_static_routes-none_example =
    update_static_routes-none host runtime manager none (codes "rt") [] client updated.1.0 (0, 0)
      updated.1.1 (λ i. (updated_none i, updated.1))

only_other : (req : Request) (w : World) → req.method ≡ codes "GET" → w.1 ≡ (send req w).1.1
unfolding send text_eq
only_other req (t, n) h = ap (λ m. if m == codes "GET" then n else n + 1) (sym h)

seen-sync_example :
    (sync
      (service host runtime manager none)
      (codes "rt" ∷ [])
      []
      (v4 0x0a000001)
      true
      (client, (0, 0))).1.1.1
    ≡ 0
seen-sync_example =
    seen-sync host runtime (λ w. w.1) only_other manager none (codes "rt" ∷ []) [] (v4 0x0a000001)
      (client, (0, 0))

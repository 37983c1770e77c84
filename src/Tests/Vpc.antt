-- ===== src/Tests/Vpc.antt =====
-- A VPC service with one table, whose rows are empty, and the theorem on the service at it. A world is
-- how many rows the table has.
use cloud_route_manager.Base.{
  is_empty, ◌||◌, ◌^◌, ◌≡◌, refl, ap, sym, ◌∙◌, ◌*◌, ℕ, zero, suc, Text, text_eq, codes, true, List,
  [], ◌∷◌, ◌==◌, none, some, Option, errorf, Result, ok, err, if◌then◌else◌, length, ok-injective,
  subst, inl,
}
use cloud_route_manager.Time.{nanoseconds, second}
use cloud_route_manager.Http.{Request, Response, Host}
use cloud_route_manager.Yandex.{Row}
use cloud_route_manager.Yandex.Calls.{IsFaithful}
use cloud_route_manager.Yandex.Client.{Runtime, Manager, Operation, RouteTable, service}
use cloud_route_manager.Yandex.Client.Answers.{Answers}
use cloud_route_manager.Yandex.Client.Faithful.{IsVpc, service-IsFaithful}

-- A text of so many characters, and so many empty rows.
abbrev unary : ℕ → Text
unary zero = []
unary (suc n) = b'r' ∷ unary n

abbrev rows_of : Text → List Row
rows_of [] = []
rows_of (c ∷ s) = [] ∷ rows_of s

abbrev one_more : Result Text → Result Text
one_more (ok s) = ok (b'r' ∷ s)
one_more (err e) = err e

-- Rows that are not empty are refused.
unfoldable encode : List Row → Result Text
encode [] = ok []
encode ([] ∷ rows) = one_more (encode rows)
encode ((f ∷ fs) ∷ rows) = err (errorf "not supported" [])

abbrev sent_rows : Option Text → ℕ
sent_rows none = 0
sent_rows (some body) = length body

unfoldable send : Request → ℕ → Result Response × ℕ
send req w = (
  ok (record { status_code = 200; status = codes "200 OK"; read_all = λ limit. ok (unary w) }),
  if req.method == codes "GET" then w else sent_rows req.body,
)

abbrev host : Host
host = record {
  World = ℕ;
  getenv = λ name. codes "token";
  now = λ w. 0;
  check_url = λ url. none;
  send = send;
}

abbrev runtime : Runtime host
runtime = record {
  decode_token = λ text. ok (record { access_token = codes "t"; expires_in = nanoseconds 3_600 });
  decode_operation = λ text. ok (record { id = codes "op"; done = true; error = none });
  decode_table = λ text. ok (record { id = codes "rt"; name = []; static_routes = rows_of text });
  encode_update = encode;
  select = λ ctx start ticks w. (none, w);
}

abbrev manager : Manager
manager = record {
  vpc_endpoint = codes "https://vpc";
  op_endpoint = codes "https://op";
  op_timeout = 60 * second;
}

abbrev Holds : ℕ → Text → List Row → Type 0
Holds w t rows = rows ≡ rows_of (unary w)

get_keeps : (req : Request) (w : ℕ) → req.method ≡ codes "GET" → w ≡ (send req w).1
unfolding send text_eq
get_keeps req w h = ap (λ m. if m == codes "GET" then w else sent_rows req.body) (sym h)

-- What a response says.
told {ℓ} :
    {A : Type ℓ} (decode : Text → Result A) (req : Request) (a : A) (w w' : ℕ)
    → Answers host runtime decode req w a w'
    → decode (unary w) ≡ ok a
unfolding send
told decode req a w w' h =
    let same = ok-injective (λ i. (h.sent i).0) in
    let raw : ok (unary w) ≡ ok h.raw = ap (λ q. q.read_all (8 * 2 ^ 20)) same ∙ h.read in
    subst (λ s. decode s ≡ ok a) (sym (ok-injective raw)) h.is_decoded

-- The world behind a request.
left {ℓ} :
    {A : Type ℓ} (decode : Text → Result A) (req : Request) (a : A) (w w' : ℕ)
    → Answers host runtime decode req w a w'
    → (send req w).1 ≡ w'
left decode req a w w' h = ap (λ r. r.1) h.sent

-- A table that was read.
read_rows :
    (req : Request) (table : RouteTable) (w w' : ℕ)
    → Answers host runtime runtime.decode_table req w table w'
    → table.static_routes ≡ rows_of (unary w)
read_rows req table w w' h =
    sym (ap (λ t. t.static_routes) (ok-injective (told runtime.decode_table req table w w' h)))

-- Every operation is over when it is answered.
is_over :
    (req : Request) (op : Operation) (w w' : ℕ)
    → Answers host runtime runtime.decode_operation req w op w'
    → (op.done || is_empty op.id) ≡ true
is_over req op w w' h =
    sym (
      ap (λ o. o.done || is_empty o.id)
        (ok-injective (told runtime.decode_operation req op w w' h)))

one_more-encoded :
    (r : Result Text) (rows : List Row) (body : Text)
    → ((s : Text) → r ≡ ok s → rows ≡ rows_of (unary (length s)))
    → one_more r ≡ ok body
    → ([] ∷ rows) ≡ rows_of (unary (length body))
one_more-encoded (ok s) rows body k h =
    subst (λ b. ([] ∷ rows) ≡ rows_of (unary (length b))) (ok-injective h)
      (ap (λ q. [] ∷ q) (k s refl))
one_more-encoded (err e) rows body k h = cc h

encoded :
    (rows : List Row) (body : Text) → encode rows ≡ ok body → rows ≡ rows_of (unary (length body))
unfolding encode
encoded [] body h = subst (λ b. [] ≡ rows_of (unary (length b))) (ok-injective h) refl
encoded ([] ∷ rows) body h = one_more-encoded (encode rows) rows body (λ s k. encoded rows s k) h
encoded ((f ∷ fs) ∷ rows) body h = cc h

vpc : IsVpc host runtime manager Holds (λ w op t rows. Holds w t rows)
unfolding send text_eq
vpc = record {
  holds_on = λ t rows req w k h. subst (λ v. Holds v t rows) (get_keeps req w k) h;
  accepted_on = λ op t rows req w k h. subst (λ v. Holds v t rows) (get_keeps req w k) h;
  waits = λ op t rows ctx start ticks w h. h;
  shown = λ ctx t token table w w' a.
      subst (λ v. Holds v t table.static_routes) (left _ _ table w w' a) (read_rows _ table w w' a);
  shows = λ ctx t token table rows w w' h a. read_rows _ table w w' a ∙ sym h;
  patched = λ ctx t token body rows op w w' e a q.
      inl (
        is_over _ op w w' a,
        subst (λ v. Holds v t rows) (left _ _ op w w' a) (encoded rows body e),
      );
  finished =
      λ ctx op t token rows cur w w' h a q d. subst (λ v. Holds v t rows) (left _ _ cur w w' a) h;
}

service-IsFaithful_example : IsFaithful (service host runtime manager none)
service-IsFaithful_example =
    service-IsFaithful host runtime manager Holds (λ w op t rows. Holds w t rows) vpc none

-- ===== src/Yandex/Client/Faithful.antt =====
-- internal/cloud/yandex/routes.go: the service over HTTP is one that gives a table back as it was sent.
use cloud_route_manager.Base.{
  ◌≡◌, refl, ap, sym, ◌∙◌, ℕ, zero, suc, ◌+◌, Text, codes, true, false, ◌||◌, ◌⊎◌, inl, inr, List,
  Option, none, some, Error, Result, ok, err, is_empty, subst, ok-injective,
}
use cloud_route_manager.Http.{Context, Request, Host}
use cloud_route_manager.Metadata.{MetadataClient, iam_token}
use cloud_route_manager.Metadata.Tokens.{iam_token-sent}
use cloud_route_manager.Yandex.{Row}
use cloud_route_manager.Yandex.Calls.{IsFaithful}
use cloud_route_manager.Yandex.Client.{
  Runtime, Manager, Operation, RouteTable, operation_err, do_into, poll, polled, operation_url,
  unfinished, started, wait_operation, api_request, rows_of, table_url, get_route_table,
  update_static_routes, service, State, Waited,
}
use cloud_route_manager.Yandex.Client.Outcomes.{answered-none, selected-none}
use cloud_route_manager.Yandex.Client.Answers.{Answers, do_into-ok, do_into_body-ok}

module _ (host : Host) (runtime : Runtime host) (m : Manager) where
  open host use {World, send}
  open runtime use {decode_token, decode_operation, decode_table, encode_update, select}

  -- What the VPC service documents of its requests, where no one else changes its tables and no
  -- operation of an earlier run is still to end. `Holds w t rows` says that table `t` has these rows,
  -- and `Accepted w op t rows` that operation `op` is to give it them.
  pub record IsVpc (Holds : World → Text → List Row → Type 0)
      (Accepted : World → Text → Text → List Row → Type 0) : Type 0 where
    pub holds_on :
        (t : Text) (rows : List Row) (req : Request) (w : World)
        → req.method ≡ codes "GET"
        → Holds w t rows
        → Holds (send req w).1 t rows
    pub accepted_on :
        (op t : Text) (rows : List Row) (req : Request) (w : World)
        → req.method ≡ codes "GET"
        → Accepted w op t rows
        → Accepted (send req w).1 op t rows
    pub waits :
        (op t : Text) (rows : List Row) (ctx : Context) (start ticks : ℕ) (w : World)
        → Accepted w op t rows
        → Accepted (select ctx start ticks w).1 op t rows
    pub shown :
        (ctx : Context) (t token : Text) (table : RouteTable) (w w' : World)
        → Answers host runtime decode_table
            (api_request host runtime ctx (codes "GET") (table_url host runtime m t) none token)
            w
            table
            w'
        → Holds w' t table.static_routes
    pub shows :
        (ctx : Context) (t token : Text) (table : RouteTable) (rows : List Row) (w w' : World)
        → Holds w t rows
        → Answers host runtime decode_table
            (api_request host runtime ctx (codes "GET") (table_url host runtime m t) none token)
            w
            table
            w'
        → table.static_routes ≡ rows
    pub patched :
        (ctx : Context) (t token body : Text) (rows : List Row) (op : Operation) (w w' : World)
        → encode_update rows ≡ ok body
        → Answers host runtime decode_operation
            (api_request host runtime ctx
              (codes "PATCH")
              (table_url host runtime m t)
              (some body)
              token)
            w
            op
            w'
        → operation_err op ≡ none
        → (((op.done || is_empty op.id) ≡ true) × Holds w' t rows)
          ⊎ (((op.done || is_empty op.id) ≡ false) × Accepted w' op.id t rows)
    pub finished :
        (ctx : Context) (op t token : Text) (rows : List Row) (cur : Operation) (w w' : World)
        → Accepted w op t rows
        → Answers host runtime decode_operation
            (api_request host runtime ctx
              (codes "GET")
              (operation_url host runtime m op)
              none
              token)
            w
            cur
            w'
        → operation_err cur ≡ none
        → cur.done ≡ true
        → Holds w' t rows

  module _ (Holds : World → Text → List Row → Type 0)
      (Accepted : World → Text → Text → List Row → Type 0) (vpc : IsVpc Holds Accepted) where
    -- A call of `Token` changes no table and no operation.
    token-Holds :
        (t : Text) (rows : List Row) (c : MetadataClient) (ctx : Context) (w : World)
        → Holds w t rows
        → Holds (iam_token host decode_token c ctx w).2 t rows
    token-Holds t rows c ctx w =
        iam_token-sent host decode_token (λ v w. Holds v t rows → Holds w t rows) (λ w h. h)
          (λ req w k. vpc.holds_on t rows req w k) c ctx w

    token-Accepted :
        (op t : Text) (rows : List Row) (c : MetadataClient) (ctx : Context) (w : World)
        → Accepted w op t rows
        → Accepted (iam_token host decode_token c ctx w).2 op t rows
    token-Accepted op t rows c ctx w =
        iam_token-sent host decode_token (λ v w. Accepted v op t rows → Accepted w op t rows)
          (λ w h. h) (λ req w k. vpc.accepted_on op t rows req w k) c ctx w

    before-Accepted :
        (op t : Text) (rows : List Row) (ctx : Context) (c : MetadataClient) (w : World)
        (token : Text) (d : MetadataClient) (v : World)
        → iam_token host decode_token c ctx w ≡ (ok token, d, v)
        → Accepted w op t rows
        → Accepted v op t rows
    before-Accepted op t rows ctx c w token d v e a =
        subst (λ v. Accepted v op t rows) (ap (λ x. x.2) e) (token-Accepted op t rows c ctx w a)

    polled-Holds :
        (again : MetadataClient → World → Waited host runtime) (ctx : Context) (op t : Text)
        (rows : List Row) (c c' : MetadataClient) (w w' : World)
        (out : Result Operation × MetadataClient × World)
        → Accepted w op t rows
        → do_into host runtime decode_operation ctx
            (codes "GET")
            (operation_url host runtime m op)
            none
            c
            w
          ≡ out
        → ((d : MetadataClient) (v : World)
            → Accepted v op t rows
            → again d v ≡ (none, c', w')
            → Holds w' t rows)
        → polled host runtime again out ≡ (none, c', w')
        → Holds w' t rows
    polled-Holds again ctx op t rows c c' w w' (err e, d, v) a h k l = cc l
    polled-Holds again ctx op t rows c c' w w' (ok cur, d, v) a h k l =
        let r =
          do_into-ok host runtime decode_operation ctx (codes "GET")
            (operation_url host runtime m op) c w cur d v h in
        let b = before-Accepted op t rows ctx c w r.token d r.before r.has_token a in
        elim (answered-none host runtime again (operation_err cur) cur.done d c' v w' l) [
          | inl e ↦
              k d v
                (subst (λ v. Accepted v op t rows) (ap (λ q. q.1) r.answers.sent)
                  (vpc.accepted_on op t rows _ r.before refl b))
                e
          | inr (quiet, over, p, q) ↦
              subst (λ v. Holds v t rows) q
                (vpc.finished ctx op t r.token rows cur r.before v b r.answers quiet over)
        ]

    poll-Holds :
        (fuel : ℕ) (ctx : Context) (start ticks : ℕ) (op t : Text) (rows : List Row)
        (c c' : MetadataClient) (w w' : World)
        → Accepted w op t rows
        → poll host runtime fuel m ctx start ticks op c w ≡ (none, c', w')
        → Holds w' t rows
    unfolding poll
    poll-Holds zero ctx start ticks op t rows c c' w w' a h = cc h
    poll-Holds (suc fuel) ctx start ticks op t rows c c' w w' a h =
        let w₁ = (select ctx start ticks w).1 in
        polled-Holds _ ctx op t rows c c' w₁ w' _ (vpc.waits op t rows ctx start ticks w a) refl
          (λ d v b l. poll-Holds fuel ctx start (ticks + 1) op t rows d c' v w' b l)
          (selected-none host runtime op _ c c' w' (select ctx start ticks w) h)

    unfinished-Holds :
        (ctx : Context) (op : Operation) (o : Option Error) (t : Text) (rows : List Row)
        (c c' : MetadataClient) (w w' : World)
        → (o ≡ none
            → (((op.done || is_empty op.id) ≡ true) × Holds w t rows)
              ⊎ (((op.done || is_empty op.id) ≡ false) × Accepted w op.id t rows))
        → unfinished host runtime m ctx op o c w ≡ (none, c', w')
        → Holds w' t rows
    unfinished-Holds ctx op (some e) t rows c c' w w' a h = cc h
    unfinished-Holds ctx op none t rows c c' w w' a h = elim (a refl) [
      | inl (over, held) ↦
          let e : (none, c, w) ≡ (none, c', w') = rw (over) at h in
          subst (λ v. Holds v t rows) (ap (λ q. q.2) e) held
      | inr (over, b) ↦ poll-Holds _ _ _ 0 op.id t rows c c' w w' b (rw (over) at h)
    ]

    started-Holds :
        (ctx : Context) (t : Text) (rows : List Row) (c c' : MetadataClient) (w w' : World)
        (out : Result Operation × MetadataClient × World)
        → do_into host runtime decode_operation ctx
            (codes "PATCH")
            (table_url host runtime m t)
            (some (encode_update rows))
            c
            w
          ≡ out
        → started host runtime m ctx out ≡ (none, c', w')
        → Holds w' t rows
    unfolding wait_operation
    started-Holds ctx t rows c c' w w' (err e, d, v) h k = cc k
    started-Holds ctx t rows c c' w w' (ok op, d, v) h k =
        let (body, e, r) =
          do_into_body-ok host runtime decode_operation ctx (codes "PATCH")
            (table_url host runtime m t) (encode_update rows) c w op d v h in
        unfinished-Holds ctx op (operation_err op) t rows d c' v w'
          (λ quiet. vpc.patched ctx t r.token body rows op r.before v e r.answers quiet) k

    update-Holds :
        (ctx : Context) (t : Text) (rows : List Row) (s s' : State host runtime)
        → update_static_routes host runtime m ctx t rows s ≡ (none, s')
        → Holds s'.1 t rows
    unfolding update_static_routes
    update-Holds ctx t rows (c, w) (c', w') h =
        started-Holds ctx t rows c c' w w' _ refl (λ i. ((h i).0, (h i).1.0, (h i).1.1))

    rows_of-ok :
        (out : Result RouteTable × MetadataClient × World) (rows : List Row) (c : MetadataClient)
        (w : World)
        → rows_of host runtime out ≡ (ok rows, c, w)
        → (table : RouteTable) × (out ≡ (ok table, c, w)) × (table.static_routes ≡ rows)
    rows_of-ok (err e, d, v) rows c w h = cc h
    rows_of-ok (ok table, d, v) rows c w h =
        (table, λ i. (ok table, (h i).1, (h i).2), ok-injective (λ i. (h i).0))

    -- A table that is read has the rows that are given, and if it held some, these are they.
    get-Holds :
        (ctx : Context) (t : Text) (rows : List Row) (s s' : State host runtime)
        → get_route_table host runtime m ctx t s ≡ (ok rows, s')
        → Holds s'.1 t rows × ((held : List Row) → Holds s.1 t held → rows ≡ held)
    unfolding get_route_table
    get-Holds ctx t rows (c, w) (c', w') h =
        let (table, e, q) = rows_of-ok _ rows c' w' (λ i. ((h i).0, (h i).1.0, (h i).1.1)) in
        let r =
          do_into-ok host runtime decode_table ctx (codes "GET") (table_url host runtime m t) c w
            table c' w' e in
        (
          subst (Holds w' t) q (vpc.shown ctx t r.token table r.before w' r.answers),
          λ held k.
              sym q
              ∙ vpc.shows ctx t r.token table held r.before w'
                  (subst (λ v. Holds v t held) (ap (λ x. x.2) r.has_token)
                    (token-Holds t held c ctx w k))
                  r.answers,
        )

    -- Where the VPC service keeps to `IsVpc`, the calls over HTTP are `IsFaithful`, which the theorems on
    -- `Sync` ask for. If `updateStaticRoutes` returns no error, which it may do from the response or
    -- behind the loop of `waitOperation`, then a `getRouteTable` next that returns rows returns those
    -- that were sent; and two calls of `getRouteTable` in a row that return rows return the same.
    pub service-IsFaithful : (ctx : Context) → IsFaithful (service host runtime m ctx)
    service-IsFaithful ctx = record {
      stored = λ t rows rows' s s' s'' h g.
          (get-Holds ctx t rows' s' s'' g).1 rows (update-Holds ctx t rows s s' h);
      read_twice = λ t rows rows' s s' s'' h g.
          (get-Holds ctx t rows' s' s'' g).1 rows (get-Holds ctx t rows s s' h).0;
    }

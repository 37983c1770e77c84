-- ===== src/Yandex/Client/Outcomes.antt =====
-- internal/cloud/yandex/routes.go: what an update that returns no error has seen of the service.
use cloud_route_manager.Base.{
  ◌≡◌, refl, ap, ◌∙◌, ℕ, zero, suc, ◌+◌, Text, codes, Bool, true, false, ◌||◌, ◌⊎◌, inl, inr, List,
  [], ◌∷◌, not, arith, Option-cases, Option, none, some, Bool-cases, Error, Result, ok, err,
  is_empty,
}
use cloud_route_manager.Base.Decimal.{ℤ, pos, negsuc, is_zero}
use cloud_route_manager.Http.{Context, Host}
use cloud_route_manager.Metadata.{MetadataClient}
use cloud_route_manager.Yandex.{Row}
use cloud_route_manager.Yandex.Client.{
  Runtime, Manager, Operation, Failure, failed, operation_err, do_into, poll, polled, answered,
  selected, operation_url, wait_operation, unfinished, started, Waited, update_static_routes,
  table_url,
}

is_empty-nil : (s : Text) → is_empty s ≡ true → s ≡ []
is_empty-nil [] h = refl
is_empty-nil (c ∷ s) h = cc h

is_zero-pos : (n : ℤ) → is_zero n ≡ true → n ≡ pos 0
is_zero-pos (pos n) h = ap pos (ground (arith, h))
is_zero-pos (negsuc n) h = cc h

module _ (host : Host) (runtime : Runtime host) where
  open host use {World, now}
  open runtime use {decode_operation, encode_update, select}

  -- What the answer of an operation says where it did not fail: there is no field `error`, or one with
  -- an empty message and the code 0.
  abbrev pub IsQuiet : Operation → Type 0
  IsQuiet op =
      (op.error ≡ none)
      ⊎ ((f : Failure) × (op.error ≡ some f) × (f.message ≡ []) × (f.code ≡ pos 0))

  failed-none :
      (id : Text) (f : Failure) → failed id (some f) ≡ none → (f.message ≡ []) × (f.code ≡ pos 0)
  failed-none id f h = elim (Bool-cases (not (is_empty f.message) || not (is_zero f.code))) [
    | inl e ↦ absurd (ground (arith, e, h))
    | inr e ↦ (is_empty-nil f.message (ground (arith, e)), is_zero-pos f.code (ground (arith, e)))
  ]

  operation_err-none : (op : Operation) → operation_err op ≡ none → IsQuiet op
  unfolding operation_err
  operation_err-none op h = elim (Option-cases op.error) [
    | inl e ↦ inl e
    | inr (f, e) ↦ let (m, z) = failed-none op.id f (rw e at h) in inr (f, e, m, z)
  ]

  -- The last request was for the operation, which is done and has no error.
  pub record IsConfirmed (m : Manager) (id : Text) (c' : MetadataClient) (w' : World) : Type 0 where
    pub context : Context
    pub meta : MetadataClient
    pub world : World
    pub operation : Operation
    pub answered :
        do_into host runtime decode_operation context
          (codes "GET")
          (operation_url host runtime m id)
          none
          meta
          world
        ≡ (ok operation, c', w')
    pub no_error : IsQuiet operation
    pub done : operation.done ≡ true

  -- The triples that a call which has returned no error is.
  pub answered-none :
      (again : MetadataClient → World → Waited host runtime) (o : Option Error) (done : Bool)
      (c c' : MetadataClient) (w w' : World)
      → answered host runtime again o done c w ≡ (none, c', w')
      → (again c w ≡ (none, c', w')) ⊎ ((o ≡ none) × (done ≡ true) × (c ≡ c') × (w ≡ w'))
  answered-none again (some e) done c c' w w' h = cc h
  answered-none again none true c c' w w' h = inr (refl, refl, ap (λ t. t.1) h, ap (λ t. t.2) h)
  answered-none again none false c c' w w' h = inl h

  polled-none :
      (again : MetadataClient → World → Waited host runtime) (m : Manager) (ctx : Context)
      (id : Text) (c c' : MetadataClient) (w w' : World)
      (out : Result Operation × MetadataClient × World)
      → do_into host runtime decode_operation ctx
          (codes "GET")
          (operation_url host runtime m id)
          none
          c
          w
        ≡ out
      → ((d : MetadataClient) (v : World) → again d v ≡ (none, c', w') → IsConfirmed m id c' w')
      → polled host runtime again out ≡ (none, c', w')
      → IsConfirmed m id c' w'
  polled-none again m ctx id c c' w w' (err e, d, v) h k l = cc l
  polled-none again m ctx id c c' w w' (ok cur, d, v) h k l =
      elim (answered-none again (operation_err cur) cur.done d c' v w' l) [
        | inl e ↦ k d v e
        | inr (quiet, over, p, q) ↦ record {
          context = ctx;
          meta = c;
          world = w;
          operation = cur;
          answered = h ∙ (λ i. (ok cur, p i, q i));
          no_error = operation_err-none cur quiet;
          done = over;
        }
      ]

  pub selected-none :
      (id : Text) (tick : World → Waited host runtime) (c c' : MetadataClient) (w' : World)
      (out : Option Error × World)
      → selected host runtime id tick c out ≡ (none, c', w')
      → tick out.1 ≡ (none, c', w')
  selected-none id tick c c' w' (some e, w) h = cc h
  selected-none id tick c c' w' (none, w) h = h

  poll-none :
      (fuel : ℕ) (m : Manager) (ctx : Context) (start ticks : ℕ) (id : Text) (c c' : MetadataClient)
      (w w' : World)
      → poll host runtime fuel m ctx start ticks id c w ≡ (none, c', w')
      → IsConfirmed m id c' w'
  unfolding poll
  poll-none zero m ctx start ticks id c c' w w' h = cc h
  poll-none (suc fuel) m ctx start ticks id c c' w w' h =
      let w₁ = (select ctx start ticks w).1 in
      polled-none _ m ctx id c c' w₁ w' _ refl
        (λ d v l. poll-none fuel m ctx start (ticks + 1) id d c' v w' l)
        (selected-none id _ c c' w' (select ctx start ticks w) h)

  unfinished-none :
      (m : Manager) (ctx : Context) (op : Operation) (o : Option Error) (c c' : MetadataClient)
      (w w' : World)
      → unfinished host runtime m ctx op o c w ≡ (none, c', w')
      → (o ≡ none) × (((op.done || is_empty op.id) ≡ true) ⊎ IsConfirmed m op.id c' w')
  unfinished-none m ctx op (some e) c c' w w' h = cc h
  unfinished-none m ctx op none c c' w w' h = (
    refl,
    elim (Bool-cases (op.done || is_empty op.id)) [
      | inl e ↦ inl e
      | inr e ↦ inr (poll-none _ m _ _ 0 op.id c c' w w' (rw (e) at h))
    ],
  )

  started-none :
      (m : Manager) (ctx : Context) (out : Result Operation × MetadataClient × World)
      (c' : MetadataClient) (w' : World)
      → started host runtime m ctx out ≡ (none, c', w')
      → (op : Operation) × (out.0 ≡ ok op)
        × IsQuiet op
        × (((op.done || is_empty op.id) ≡ true) ⊎ IsConfirmed m op.id c' w')
  unfolding wait_operation
  started-none m ctx (err e, c, w) c' w' h = cc h
  started-none m ctx (ok op, c, w) c' w' h =
      let (quiet, over) = unfinished-none m ctx op (operation_err op) c c' w w' h in
      (op, refl, operation_err-none op quiet, over)

  -- An update that returns no error was answered with an operation whose field `error` is missing, or has
  -- an empty message and the code 0; and this operation was done, or had no id, or was found done and
  -- with no such failure by the last request.
  pub update_static_routes-none :
      (m : Manager) (ctx : Context) (id : Text) (rows : List Row) (c c' : MetadataClient)
      (w w' : World)
      → update_static_routes host runtime m ctx id rows (c, w) ≡ (none, (c', w'))
      → (op : Operation) × ((do_into host runtime decode_operation ctx
            (codes "PATCH")
            (table_url host runtime m id)
            (some (encode_update rows))
            c
            w).0
          ≡ ok op)
        × IsQuiet op
        × (((op.done || is_empty op.id) ≡ true) ⊎ IsConfirmed m op.id c' w')
  unfolding update_static_routes
  update_static_routes-none m ctx id rows c c' w w' h =
      started-none m ctx _ c' w' (λ i. ((h i).0, (h i).1.0, (h i).1.1))

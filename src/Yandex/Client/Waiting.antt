-- ===== src/Yandex/Client/Waiting.antt =====
-- internal/cloud/yandex/routes.go: the end of the loop of `waitOperation`.
use cloud_route_manager.Base.{
  ◌≡◌, refl, ℕ, zero, suc, ◌+◌, ◌*◌, ◌/◌, ◌≤◌, ◌<◌, arith, Text, codes, Bool, true, false, Option,
  none, some, Error, Result, ok, err,
}
use native.Mathlib.Nat.{lt-div-mul-add}
use cloud_route_manager.Time.{second}
use cloud_route_manager.Http.{Context, with_timeout, Request, Response, Host}
use cloud_route_manager.Metadata.{MetadataClient, iam_token}
use cloud_route_manager.Metadata.Tokens.{iam_token-sent}
use cloud_route_manager.Yandex.Client.{
  Runtime, Manager, Operation, operation_err, do_raw, do_into, poll, poll_fuel, polled, answered,
  selected, operation_url, with_url, with_token, reply, api_request, decoded, Waited,
}

module _ (host : Host) (runtime : Runtime host) where
  open host use {World, now, check_url, send}
  open runtime use {decode_token, decode_operation, select}

  -- What the clock, `net/http` and `time.Ticker` document: time does not go back, a request under a
  -- context that has expired fails, and the ticker's ticks are a second apart.
  pub record IsTimed : Type 0 where
    pub send_forward : (req : Request) (w : World) → now w ≤ now (send req w).1
    pub expired :
        (req : Request) (w : World) (d : ℕ)
        → req.context ≡ some d
        → d ≤ now w
        → (e : Error) × ((send req w).0 ≡ err e)
    pub ticked :
        (ctx : Context) (start ticks : ℕ) (w w' : World)
        → select ctx start ticks w ≡ (none, w')
        → start + (ticks + 1) * second ≤ now w'

  module _ (timed : IsTimed) where
    iam_token-forward :
        (c : MetadataClient) (ctx : Context) (w : World)
        → now w ≤ now (iam_token host decode_token c ctx w).2
    iam_token-forward c ctx w =
        iam_token-sent host decode_token (λ w w'. now w ≤ now w') (λ w. omega arith)
          (λ req w _. timed.send_forward req w) c ctx w

    -- A result that is an error, whatever the state.
    abbrev Fails {ℓ} : {A : Type ℓ} → Result A × MetadataClient × World → Type ℓ
    Fails {A = A} out = (e : Error) × (c : MetadataClient) × (w : World) × (out ≡ (err e, c, w))

    reply-expired :
        (method url : Text) (c : MetadataClient) (e : Error) (out : Result Response × World)
        → out.0 ≡ err e
        → Fails (reply host runtime method url c out)
    reply-expired method url c e (err e', w) h = (_, c, w, refl)
    reply-expired method url c e (ok resp, w) h = cc h

    with_token-expired :
        (d : ℕ) (method url : Text) (out : Result Text × MetadataClient × World)
        → d ≤ now out.2
        → Fails (with_token host runtime (some d) method url none out)
    with_token-expired d method url (err e, c, w) h = (e, c, w, refl)
    with_token-expired d method url (ok t, c, w) h =
        let (e, k) =
          timed.expired (api_request host runtime (some d) method url none t) w d refl h in
        reply-expired method url c e (send (api_request host runtime (some d) method url none t) w)
          k

    with_url-expired :
        (d : ℕ) (method url : Text) (o : Option Error) (c : MetadataClient) (w : World)
        → d ≤ now w
        → Fails (with_url host runtime (some d) method url none o c w)
    with_url-expired d method url (some e) c w h = (e, c, w, refl)
    with_url-expired d method url none c w h =
        with_token-expired d method url (iam_token host decode_token c (some d) w)
          (omega (arith, h, iam_token-forward c (some d) w))

    decoded-expired {ℓ} :
        {A : Type ℓ} (decode : Text → Result A) (method url : Text)
        (out : Result Text × MetadataClient × World)
        → Fails out
        → Fails (decoded host runtime decode method url out)
    decoded-expired decode method url (err e, c, w) h = (e, c, w, refl)
    decoded-expired decode method url (ok raw, c, w) (e, c', w', h) = cc h

    -- A request under a context that has expired fails.
    do_into-expired {ℓ} :
        {A : Type ℓ} (decode : Text → Result A) (d : ℕ) (method url : Text) (c : MetadataClient)
        (w : World)
        → d ≤ now w
        → Fails (do_into host runtime decode (some d) method url none c w)
    unfolding do_into do_raw
    do_into-expired decode d method url c w h =
        decoded-expired decode method url (do_raw host runtime (some d) method url none c w)
          (with_url-expired d method url (check_url url) c w h)

    polled-Fails :
        (again again' : MetadataClient → World → Waited host runtime)
        (out : Result Operation × MetadataClient × World)
        → Fails out
        → polled host runtime again out ≡ polled host runtime again' out
    polled-Fails again again' (err e, c, w) h = refl
    polled-Fails again again' (ok cur, c, w) (e, c', w', h) = cc h

    answered-agree :
        (again again' : MetadataClient → World → Waited host runtime) (o : Option Error)
        (done : Bool) (c : MetadataClient) (w : World)
        → again c w ≡ again' c w
        → answered host runtime again o done c w ≡ answered host runtime again' o done c w
    answered-agree again again' (some e) done c w h = refl
    answered-agree again again' none true c w h = refl
    answered-agree again again' none false c w h = h

    polled-agree :
        (again again' : MetadataClient → World → Waited host runtime)
        (out : Result Operation × MetadataClient × World)
        → again out.1 out.2 ≡ again' out.1 out.2
        → polled host runtime again out ≡ polled host runtime again' out
    polled-agree again again' (err e, c, w) h = refl
    polled-agree again again' (ok cur, c, w) h =
        answered-agree again again' (operation_err cur) cur.done c w h

    selected-agree :
        (id : Text) (tick tick' : World → Waited host runtime) (c : MetadataClient)
        (out : Option Error × World)
        → (out.0 ≡ none → tick out.1 ≡ tick' out.1)
        → selected host runtime id tick c out ≡ selected host runtime id tick' c out
    selected-agree id tick tick' c (some e, w) h = refl
    selected-agree id tick tick' c (none, w) h = h refl

    last_tick :
        (again again' : MetadataClient → World → Waited host runtime) (m : Manager)
        (d start ticks : ℕ) (id : Text) (c : MetadataClient) (w : World)
        → d ≤ start + (ticks + 1) * second
        → (select (some d) start ticks w).0 ≡ none
        → polled host runtime again (
            do_into host runtime decode_operation
              (some d)
              (codes "GET")
              (operation_url host runtime m id)
              none
              c
              (select (some d) start ticks w).1)
          ≡ polled host runtime again' (
              do_into host runtime decode_operation
                (some d)
                (codes "GET")
                (operation_url host runtime m id)
                none
                c
                (select (some d) start ticks w).1)
    last_tick again again' m d start ticks id c w h k =
        let t =
          timed.ticked (some d) start ticks w _ (λ i. (k i, (select (some d) start ticks w).1)) in
        polled-Fails again again' _ (
          do_into-expired decode_operation d (codes "GET") (operation_url host runtime m id) c
            ((select (some d) start ticks w).1) (omega (arith, t, h)))

    poll-enough :
        (f g : ℕ) (m : Manager) (d start ticks : ℕ) (id : Text) (c : MetadataClient) (w : World)
        → d ≤ start + (ticks + (f + 1)) * second
        → d ≤ start + (ticks + (g + 1)) * second
        → poll host runtime (suc f) m (some d) start ticks id c w
          ≡ poll host runtime (suc g) m (some d) start ticks id c w
    unfolding poll
    poll-enough zero g m d start ticks id c w h k =
        selected-agree id _ _ c (select (some d) start ticks w)
          λ e. last_tick _ _ m d start ticks id c w h e
    poll-enough (suc f) zero m d start ticks id c w h k =
        selected-agree id _ _ c (select (some d) start ticks w)
          λ e. last_tick _ _ m d start ticks id c w k e
    poll-enough (suc f) (suc g) m d start ticks id c w h k =
        selected-agree id _ _ c (select (some d) start ticks w) λ e.
          polled-agree _ _ _
            (poll-enough f g m d start (ticks + 1) id _ _ (omega (arith, h)) (omega (arith, k)))

    deadline :
        (ctx : Context) (timeout now : ℕ)
        → (d : ℕ) × (with_timeout ctx timeout now ≡ some d) × (d ≤ now + timeout)
    unfolding with_timeout
    deadline none timeout now = (now + timeout, refl, omega arith)
    deadline (some d) timeout now = (_, refl, ground arith)

    -- The loop of `waitOperation` ends: no fuel beyond a round for each second of the timeout, and one
    -- more, changes its result. This is for a clock that does not go back, a client that fails a request
    -- whose context has expired, and a ticker whose ticks are a second apart.
    pub poll-fuel :
        (fuel : ℕ) (m : Manager) (ctx : Context) (id : Text) (c : MetadataClient) (w : World)
        → poll_fuel host runtime m ≤ fuel
        → poll host runtime fuel m (with_timeout ctx m.op_timeout (now w)) (now w) 0 id c w
          ≡ poll host runtime
              (poll_fuel host runtime m)
              m
              (with_timeout ctx m.op_timeout (now w))
              (now w)
              0
              id
              c
              w
    poll-fuel zero m ctx id c w h = absurd (omega (arith, h))
    poll-fuel (suc fuel) m ctx id c w h =
        let (d, e, l) = deadline ctx m.op_timeout (now w) in
        let s : m.op_timeout < m.op_timeout / second * second + second =
          lt-div-mul-add (omega arith) in
        rw (e) (
          poll-enough fuel (m.op_timeout / second) m d (now w) 0 id c w (omega (arith, h, l, s))
            (omega (arith, l, s)))

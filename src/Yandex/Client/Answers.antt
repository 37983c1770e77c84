-- ===== src/Yandex/Client/Answers.antt =====
-- internal/cloud/yandex/routes.go: what a call of `do` that returns no error has sent and read.
use cloud_route_manager.Base.{
  ◌≡◌, refl, ap, ◌∙◌, ◌*◌, ◌^◌, Text, false, ◌||◌, Option, none, some, Error, Result, ok, err, ltb,
  leb, Bool-cases, inl, inr, arith, wrap_err-ok,
}
use cloud_route_manager.Http.{Context, Request, Response, Host}
use cloud_route_manager.Metadata.{MetadataClient, iam_token}
use cloud_route_manager.Yandex.Client.{
  Runtime, do_raw, do_into, with_url, with_token, reply, check_status, api_request, decoded,
}

module _ (host : Host) (runtime : Runtime host) where
  open host use {World, check_url, send}
  open runtime use {decode_token}

  -- A request that is answered with success, and with a body that is decoded.
  pub record Answers {ℓ} {A : Type ℓ} (decode : Text → Result A) (req : Request) (w : World) (a : A)
      (w' : World) : Type ℓ where
    pub response : Response
    pub raw : Text
    pub sent : send req w ≡ (ok response, w')
    pub success : (ltb response.status_code 200 || leb 300 response.status_code) ≡ false
    pub read : response.read_all (8 * 2 ^ 20) ≡ ok raw
    pub is_decoded : decode raw ≡ ok a

  -- A call of `do` that returns a value: its token, and its request behind the token's.
  pub record IsAnswered {ℓ} {A : Type ℓ} (decode : Text → Result A) (ctx : Context)
      (method url : Text) (body : Option Text) (c : MetadataClient) (w : World) (a : A)
      (c' : MetadataClient) (w' : World) : Type ℓ where
    pub token : Text
    pub before : World
    pub has_token : iam_token host decode_token c ctx w ≡ (ok token, c', before)
    pub answers : Answers decode (api_request host runtime ctx method url body token) before a w'

  check_status-ok :
      (method url : Text) (resp : Response) (r : Result Text) (raw : Text)
      → check_status host runtime method url resp r ≡ ok raw
      → ((ltb resp.status_code 200 || leb 300 resp.status_code) ≡ false) × (r ≡ ok raw)
  check_status-ok method url resp (err e) raw h = cc h
  check_status-ok method url resp (ok text) raw h =
      elim (Bool-cases (ltb resp.status_code 200 || leb 300 resp.status_code)) [
        | inl e ↦ absurd (ground (arith, e, h))
        | inr e ↦ (e, ground (arith, e, h))
      ]

  decoded-ok {ℓ} :
      {A : Type ℓ} (decode : Text → Result A) (method url : Text)
      (out : Result Text × MetadataClient × World) (a : A) (c : MetadataClient) (w : World)
      → decoded host runtime decode method url out ≡ (ok a, c, w)
      → (raw : Text) × (out ≡ (ok raw, c, w)) × (decode raw ≡ ok a)
  decoded-ok decode method url (err e, c', w') a c w h = cc h
  decoded-ok decode method url (ok raw, c', w') a c w h =
      (raw, λ i. (ok raw, (h i).1, (h i).2), wrap_err-ok _ _ (decode raw) a (ap (λ t. t.0) h))

  reply-ok :
      (method url : Text) (c₀ : MetadataClient) (out : Result Response × World) (raw : Text)
      (c : MetadataClient) (w : World)
      → reply host runtime method url c₀ out ≡ (ok raw, c, w)
      → (resp : Response) × (out ≡ (ok resp, w))
        × (c₀ ≡ c)
        × ((ltb resp.status_code 200 || leb 300 resp.status_code) ≡ false)
        × (resp.read_all (8 * 2 ^ 20) ≡ ok raw)
  reply-ok method url c₀ (err e, w') raw c w h = cc h
  reply-ok method url c₀ (ok resp, w') raw c w h =
      let (s, r) =
        check_status-ok method url resp (resp.read_all (8 * 2 ^ 20)) raw (λ i. (h i).0) in
      (resp, λ i. (ok resp, (h i).2), λ i. (h i).1, s, r)

  with_token-ok {ℓ} :
      {A : Type ℓ} (decode : Text → Result A) (ctx : Context) (method url : Text)
      (body : Option Text) (c₀ : MetadataClient) (w₀ : World)
      (out : Result Text × MetadataClient × World) (raw : Text) (a : A) (c : MetadataClient)
      (w : World)
      → iam_token host decode_token c₀ ctx w₀ ≡ out
      → decode raw ≡ ok a
      → with_token host runtime ctx method url body out ≡ (ok raw, c, w)
      → IsAnswered decode ctx method url body c₀ w₀ a c w
  with_token-ok decode ctx method url body c₀ w₀ (err e, c', w') raw a c w t d h = cc h
  with_token-ok decode ctx method url body c₀ w₀ (ok token, c', w') raw a c w t d h =
      let (resp, sent, same, good, read) =
        reply-ok method url c' (send (api_request host runtime ctx method url body token) w') raw c
          w h in
      record {
        token = token;
        before = w';
        has_token = t ∙ (λ i. (ok token, same i, w'));
        answers = record {
          response = resp;
          raw = raw;
          sent = sent;
          success = good;
          read = read;
          is_decoded = d;
        };
      }

  with_url-ok {ℓ} :
      {A : Type ℓ} (decode : Text → Result A) (ctx : Context) (method url : Text)
      (body : Option Text) (o : Option Error) (c₀ : MetadataClient) (w₀ : World) (raw : Text)
      (a : A) (c : MetadataClient) (w : World)
      → decode raw ≡ ok a
      → with_url host runtime ctx method url body o c₀ w₀ ≡ (ok raw, c, w)
      → IsAnswered decode ctx method url body c₀ w₀ a c w
  with_url-ok decode ctx method url body (some e) c₀ w₀ raw a c w d h = cc h
  with_url-ok decode ctx method url body none c₀ w₀ raw a c w d h =
      with_token-ok decode ctx method url body c₀ w₀ (iam_token host decode_token c₀ ctx w₀) raw a c
        w refl d h

  -- A call without a body.
  pub do_into-ok {ℓ} :
      {A : Type ℓ} (decode : Text → Result A) (ctx : Context) (method url : Text)
      (c₀ : MetadataClient) (w₀ : World) (a : A) (c : MetadataClient) (w : World)
      → do_into host runtime decode ctx method url none c₀ w₀ ≡ (ok a, c, w)
      → IsAnswered decode ctx method url none c₀ w₀ a c w
  unfolding do_into do_raw
  do_into-ok decode ctx method url c₀ w₀ a c w h =
      let (raw, e, d) =
        decoded-ok decode method url (do_raw host runtime ctx method url none c₀ w₀) a c w h in
      with_url-ok decode ctx method url none (check_url url) c₀ w₀ raw a c w d e

  -- The body of a call, as it was encoded.
  abbrev pub WasSent {ℓ} :
      {A : Type ℓ}
      → (Text → Result A)
      → Context
      → Text
      → Text
      → Result Text
      → MetadataClient
      → World
      → A
      → MetadataClient
      → World
      → Type ℓ
  WasSent decode ctx method url encoded c₀ w₀ a c w =
      (b : Text) × (encoded ≡ ok b) × IsAnswered decode ctx method url (some b) c₀ w₀ a c w

  do_encoded-ok {ℓ} :
      {A : Type ℓ} (decode : Text → Result A) (ctx : Context) (method url : Text)
      (encoded : Result Text) (c₀ : MetadataClient) (w₀ : World) (raw : Text) (a : A)
      (c : MetadataClient) (w : World)
      → decode raw ≡ ok a
      → do_raw host runtime ctx method url (some encoded) c₀ w₀ ≡ (ok raw, c, w)
      → WasSent decode ctx method url encoded c₀ w₀ a c w
  unfolding do_raw
  do_encoded-ok decode ctx method url (err e) c₀ w₀ raw a c w d h = cc h
  do_encoded-ok decode ctx method url (ok b) c₀ w₀ raw a c w d h =
      (b, refl, with_url-ok decode ctx method url (some b) (check_url url) c₀ w₀ raw a c w d h)

  -- A call with a body.
  pub do_into_body-ok {ℓ} :
      {A : Type ℓ} (decode : Text → Result A) (ctx : Context) (method url : Text)
      (encoded : Result Text) (c₀ : MetadataClient) (w₀ : World) (a : A) (c : MetadataClient)
      (w : World)
      → do_into host runtime decode ctx method url (some encoded) c₀ w₀ ≡ (ok a, c, w)
      → WasSent decode ctx method url encoded c₀ w₀ a c w
  unfolding do_into
  do_into_body-ok decode ctx method url encoded c₀ w₀ a c w h =
      let (raw, e, d) =
        decoded-ok decode method url (do_raw host runtime ctx method url (some encoded) c₀ w₀) a c w
          h in
      do_encoded-ok decode ctx method url encoded c₀ w₀ raw a c w d e

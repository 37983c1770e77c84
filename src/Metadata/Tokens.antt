-- ===== src/Metadata/Tokens.antt =====
-- internal/cloud/yandex/metadata.go: the tokens that `Token` hands out, and when.
use cloud_route_manager.Base.{
  ◌≡◌, refl, sym, arith, Text, codes, not, ◌&&◌, inl, inr, Option, none, some, Bool-cases, Error,
  Result, ok, err, ltb, is_empty, subst,
}
use cloud_route_manager.Http.{Context, Request, Response, Host}
use cloud_route_manager.Metadata.{
  MetadataClient, Payload, iam_token, cached_token, from_env, get, send_checked, read_answer,
  fetched, store, token_path, metadata_url, metadata_request,
}

module _ (host : Host) (decode_token : Text → Result Payload) where
  open host use {World, now, check_url, send}

  world-read_answer :
      (path : Text) (out : Result Response × World)
      → (read_answer host decode_token path out).1 ≡ out.1
  world-read_answer path (err e, w) = refl
  world-read_answer path (ok resp, w) = refl

  world-store :
      (c : MetadataClient) (r : Result Payload) (w : World) → (store host decode_token c r w).2 ≡ w
  world-store c (err e) w = refl
  world-store c (ok p) w = ground arith

  world-fetched :
      (c : MetadataClient) (out : Result Text × World) → (fetched host decode_token c out).2 ≡ out.1
  world-fetched c (err e, w) = refl
  world-fetched c (ok raw, w) = world-store c (decode_token raw) w

  -- `Token` sends one GET request at most.
  module _ {ℓ} (R : World → World → Type ℓ) (same : (w : World) → R w w)
      (sent : (req : Request) (w : World) → req.method ≡ codes "GET" → R w (send req w).1) where
    send_checked-sent :
        (ctx : Context) (path url : Text) (o : Option Error) (w : World)
        → R w (send_checked host decode_token ctx path url o w).1
    send_checked-sent ctx path url (some e) w = same w
    send_checked-sent ctx path url none w =
        subst (R w)
          (sym (world-read_answer path (send (metadata_request host decode_token ctx url) w)))
          (sent (metadata_request host decode_token ctx url) w refl)

    pub get-sent :
        (c : MetadataClient) (ctx : Context) (path : Text) (w : World)
        → R w (get host decode_token c ctx path w).1
    unfolding get
    get-sent c ctx path w =
        send_checked-sent ctx path (metadata_url host decode_token c.base_url path)
          (check_url (metadata_url host decode_token c.base_url path)) w

    cached_token-sent :
        (c : MetadataClient) (ctx : Context) (w : World)
        → R w (cached_token host decode_token c ctx w).2
    unfolding cached_token
    cached_token-sent c ctx w =
        elim (Bool-cases (not (is_empty c.token) && ltb (now w) c.token_exp)) [
          | inl e ↦ rw (e) (same w)
          | inr e ↦ rw (e) (
              subst (R w)
                (sym
                  (world-fetched c (get host decode_token c ctx (token_path host decode_token) w)))
                (get-sent c ctx (token_path host decode_token) w))
        ]

    from_env-sent :
        (o : Option Text) (c : MetadataClient) (ctx : Context) (w : World)
        → R w (from_env host decode_token o c ctx w).2
    from_env-sent (some v) c ctx w = same w
    from_env-sent none c ctx w = cached_token-sent c ctx w

    pub iam_token-sent :
        (c : MetadataClient) (ctx : Context) (w : World)
        → R w (iam_token host decode_token c ctx w).2
    unfolding iam_token
    iam_token-sent c ctx w = from_env-sent _ c ctx w

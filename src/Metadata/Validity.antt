-- ===== src/Metadata/Validity.antt =====
-- internal/cloud/yandex/metadata.go: how long `Token` hands out a token that it has cached.
use cloud_route_manager.Base.{
  ◌≡◌, refl, sym, ℕ, ◌+◌, ◌<◌, ◌*◌, ◌^◌, zero, suc, ap, ◌∙◌, arith, Text, codes, not, ◌&&◌, inl,
  inr, none, Bool-cases, Result, ok, err, ltb, is_empty, subst, [], ◌∷◌,
}
use cloud_route_manager.Time.{nanoseconds, wrapped}
use cloud_route_manager.Http.{Context, Host}
use cloud_route_manager.Metadata.{
  MetadataClient, Payload, new_metadata_client, iam_token, cached_token, from_env, get, fetched,
  store, ttl, positive_ttl, minute, token_path, env_token,
}

-- A number of seconds in nanoseconds.
abbrev pub seconds : ℕ → ℕ
seconds n = n * 1_000_000_000

positive_ttl-positive : (n : ℕ) → 0 < n → positive_ttl (nanoseconds n) ≡ n
positive_ttl-positive zero h = absurd (omega (arith, h))
positive_ttl-positive (suc n) h = refl

-- A lifetime that is positive and does not overflow is counted in seconds.
ttl-seconds : (n : ℕ) → 0 < n → seconds n < 2 ^ 63 → ttl (nanoseconds n) ≡ seconds n
unfolding ttl
ttl-seconds n h l =
    let e : wrapped (seconds n) ≡ nanoseconds (seconds n) = ground (arith, l) in
    ap positive_ttl e ∙ positive_ttl-positive (seconds n) (omega (arith, h))

module _ (host : Host) (decode_token : Text → Result Payload) where
  open host use {World, now}

  -- The clients that calls of `Token` lead to, at any times.
  pub data Reached : MetadataClient → Type 0 where
    fresh : Reached (new_metadata_client host decode_token)
    called :
        {c : MetadataClient} (ctx : Context) (w : World)
        → Reached c
        → Reached (iam_token host decode_token c ctx w).1

  module _ {ℓ} (IsAccepted : Text → ℕ → Type ℓ) where
    -- What the metadata service documents: a token has a lifetime of so many seconds, which are more than
    -- sixty and fit into a duration, and is accepted that long, counted from an answer that came less
    -- than sixty seconds before it was read.
    pub record IsIssuing : Type ℓ where
      pub lifetime :
          (raw : Text) (p : Payload)
          → decode_token raw ≡ ok p
          → (n : ℕ) × (p.expires_in ≡ nanoseconds n) × (60 < n) × (seconds n < 2 ^ 63)
      pub accepted :
          (c : MetadataClient) (ctx : Context) (w w' : World) (raw : Text) (p : Payload) (n x : ℕ)
          → get host decode_token c ctx (token_path host decode_token) w ≡ (ok raw, w')
          → decode_token raw ≡ ok p
          → p.expires_in ≡ nanoseconds n
          → x + seconds 60 < now w' + seconds n
          → IsAccepted p.access_token x

    -- The cached token is accepted until the client lets it expire.
    abbrev pub IsKept : MetadataClient → Type ℓ
    IsKept c = (x : ℕ) → x < c.token_exp → IsAccepted c.token x

    -- What a call has left: a token that is accepted now, and the cache.
    abbrev IsGood : Result Text × MetadataClient × World → Type ℓ
    IsGood out = ((t : Text) → out.0 ≡ ok t → IsAccepted t (now out.2)) × IsKept out.1

    store-IsGood :
        (c : MetadataClient) (r : Result Payload) (w : World)
        → ((p : Payload)
            → r ≡ ok p
            → (minute < ttl p.expires_in)
              × ((x : ℕ) → x + minute < now w + ttl p.expires_in → IsAccepted p.access_token x))
        → IsKept c
        → IsGood (store host decode_token c r w)
    store-IsGood c (err e) w h k = (λ t q. cc q, k)
    store-IsGood c (ok p) w h k = elim (Bool-cases (is_empty p.access_token)) [
      | inl e ↦ rw (e) (λ t q. cc q, k)
      | inr e ↦
          let (lasts, good) = h p refl in
          rw (e) (
            λ t q.
                subst (λ t. IsAccepted t (now w)) (ground (arith, q))
                  (good (now w) (omega (arith, lasts))),
            λ x l. good x (omega (arith, l)),
          )
    ]

    fetched-IsGood :
        IsIssuing
        → (c : MetadataClient) (ctx : Context) (w : World) (out : Result Text × World)
        → get host decode_token c ctx (token_path host decode_token) w ≡ out
        → IsKept c
        → IsGood (fetched host decode_token c out)
    fetched-IsGood s c ctx w (err e, w') h k = (λ t q. cc q, k)
    fetched-IsGood s c ctx w (ok raw, w') h k =
        store-IsGood c (decode_token raw) w'
          (λ p d.
            let (n, e, long, fits) = s.lifetime raw p d in
            let same = ap ttl e ∙ ttl-seconds n (omega (arith, long)) fits in
            (
              omega (arith, long, same),
              λ x l. s.accepted c ctx w w' raw p n x h d e (omega (arith, same, l)),
            ))
          k

    cached_token-IsGood :
        IsIssuing
        → (c : MetadataClient) (ctx : Context) (w : World) → IsKept c
        → IsGood (cached_token host decode_token c ctx w)
    unfolding cached_token
    cached_token-IsGood s c ctx w k =
        elim (Bool-cases (not (is_empty c.token) && ltb (now w) c.token_exp)) [
          | inl e ↦ rw (e) (
            λ t q.
                subst (λ t. IsAccepted t (now w)) (ground (arith, q))
                  (k (now w) (ground (arith, e))),
            k,
          )
          | inr e ↦ rw (e) (fetched-IsGood s c ctx w _ refl k)
        ]

    iam_token-IsGood :
        IsIssuing
        → env_token host decode_token (codes "YC_IAM_TOKEN" ∷ codes "YC_TOKEN" ∷ []) ≡ none
        → (c : MetadataClient) (ctx : Context) (w : World) → IsKept c
        → IsGood (iam_token host decode_token c ctx w)
    unfolding iam_token
    iam_token-IsGood s no_env c ctx w k =
        subst (λ o. IsGood (from_env host decode_token o c ctx w)) (sym no_env)
          (cached_token-IsGood s c ctx w k)

    new_metadata_client-IsKept : IsKept (new_metadata_client host decode_token)
    unfolding new_metadata_client
    new_metadata_client-IsKept x l = absurd (omega arith)

    Reached-IsKept :
        IsIssuing
        → env_token host decode_token (codes "YC_IAM_TOKEN" ∷ codes "YC_TOKEN" ∷ []) ≡ none
        → (c : MetadataClient) → Reached c
        → IsKept c
    Reached-IsKept s no_env c fresh = new_metadata_client-IsKept
    Reached-IsKept s no_env _ (called {c} ctx w r) =
        (iam_token-IsGood s no_env c ctx w (Reached-IsKept s no_env c r)).1

    -- Where the environment has no token, every token that `Token` hands out is accepted then, whatever
    -- calls went before, for a service whose tokens are accepted for their lifetime in seconds, which is
    -- more than sixty and fits into a duration, and is counted from an answer that came less than sixty
    -- seconds before it was read.
    pub iam_token-IsAccepted :
        IsIssuing
        → env_token host decode_token (codes "YC_IAM_TOKEN" ∷ codes "YC_TOKEN" ∷ []) ≡ none
        → (c : MetadataClient) (ctx : Context) (w : World) (t : Text) → Reached c
        → (iam_token host decode_token c ctx w).0 ≡ ok t
        → IsAccepted t (now (iam_token host decode_token c ctx w).2)
    iam_token-IsAccepted s no_env c ctx w t r h =
        (iam_token-IsGood s no_env c ctx w (Reached-IsKept s no_env c r)).0 t h

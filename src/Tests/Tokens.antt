-- ===== src/Tests/Tokens.antt =====
-- A metadata service whose tokens name the time of their issue, and the theorem on `Token` at it. A world
-- is a time in nanoseconds, which a request moves on by one.
use cloud_route_manager.Base.{
  ◌≡◌, refl, ap, sym, ◌∙◌, ℕ, zero, suc, ◌+◌, ◌<◌, arith, Text, codes, [], ◌∷◌, none, Result, ok,
  length, ok-injective,
}
use cloud_route_manager.Base.Strings.{trim_space, trim_left, trim_right, trim_suffix, trim_prefix}
use cloud_route_manager.Time.{nanoseconds}
use cloud_route_manager.Http.{Context, Host}
use cloud_route_manager.Metadata.{
  MetadataClient, Payload, new_metadata_client, iam_token, cached_token, get, env_token, token_path,
  ttl,
}
use cloud_route_manager.Metadata.Validity.{IsIssuing, seconds, fresh, called, iam_token-IsAccepted}

abbrev unary : ℕ → Text
unary zero = []
unary (suc n) = b't' ∷ unary n

length-unary : (n : ℕ) → length (unary n) ≡ n
length-unary zero = refl
length-unary (suc n) = ap suc (length-unary n)

abbrev host : Host
host = record {
  World = ℕ;
  getenv = λ name. [];
  now = λ w. w;
  check_url = λ url. none;
  send = λ req w. (
    ok (record {
      status_code = 200;
      status = codes "200 OK";
      read_all = λ limit. ok (unary (suc w));
    }),
    suc w,
  );
}

-- A lifetime of an hour.
abbrev decode : Text → Result Payload
decode text = ok (record { access_token = text; expires_in = nanoseconds 3_600 })

abbrev IsAccepted : Text → ℕ → Type 0
IsAccepted token x = x < length token + seconds 3_540

answered :
    (c : MetadataClient) (ctx : Context) (w w' : ℕ) (raw : Text)
    → get host decode c ctx (token_path host decode) w ≡ (ok raw, w')
    → w' ≡ length raw
unfolding get
answered c ctx w w' raw h =
    sym (ap (λ r. r.1) h)
    ∙ (sym (length-unary (suc w)) ∙ ap length (ok-injective (ap (λ r. r.0) h)))

nanoseconds-injective : {m n : ℕ} → nanoseconds m ≡ nanoseconds n → m ≡ n
nanoseconds-injective h = cc h

issuing : IsIssuing host decode IsAccepted
issuing = record {
  lifetime = λ raw p d.
      (3_600, ap (λ (q : Payload). q.expires_in) (ok-injective (sym d)), omega arith, omega arith);
  accepted = λ c ctx w w' raw p n x g d e l.
      let hour = nanoseconds-injective (ap (λ (q : Payload). q.expires_in) (ok-injective d) ∙ e) in
      let token = ap (λ (q : Payload). length q.access_token) (ok-injective d) in
      omega (arith, l, hour, token, answered c ctx w w' raw g);
}

no_env_token : env_token host decode (codes "YC_IAM_TOKEN" ∷ codes "YC_TOKEN" ∷ []) ≡ none
unfolding env_token trim_space trim_left trim_right
no_env_token = refl

-- The client that a call at the start has left, which is asked again when fifty minutes are over.
abbrev kept : MetadataClient
kept = (iam_token host decode (new_metadata_client host decode) none 0).1

again : (iam_token host decode kept none (seconds 3_000)).0 ≡ ok (unary 1)
unfolding iam_token env_token cached_token get new_metadata_client ttl trim_space trim_left
    trim_right trim_suffix trim_prefix
again = refl

iam_token-IsAccepted_example :
    IsAccepted (unary 1) (iam_token host decode kept none (seconds 3_000)).2
iam_token-IsAccepted_example =
    iam_token-IsAccepted host decode IsAccepted issuing no_env_token kept none (seconds 3_000)
      (unary 1) (called none 0 fresh) again

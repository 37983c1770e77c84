-- ===== src/Yandex/Client/Requests.antt =====
-- internal/cloud/yandex/routes.go: the requests that `Sync` sends, down to HTTP.
use cloud_route_manager.Base.{
  ◌≡◌, refl, ap, sym, ◌∙◌, Text, codes, true, List, [], ◌∷◌, Option, none, some, Error, Result, ok,
  err,
}
use cloud_route_manager.Cloud.{Change}
use cloud_route_manager.Netip.{Addr, Prefix}
use cloud_route_manager.Http.{Context, Request, Response, Host}
use cloud_route_manager.Metadata.{MetadataClient, iam_token}
use cloud_route_manager.Metadata.Tokens.{iam_token-sent}
use cloud_route_manager.Yandex.{sync, sync_tables}
use cloud_route_manager.Yandex.Calls.{world-sync_table}
use cloud_route_manager.Yandex.Client.{
  Runtime, Manager, RouteTable, do_raw, do_into, with_url, with_token, reply, api_request, decoded,
  rows_of, service, table_url, State, get_route_table,
}

module _ (host : Host) (runtime : Runtime host) where
  open host use {World, now, check_url, send}
  open runtime use {decode_token, decode_table}

  module _ {ℓ} {A : Type ℓ} (seen : World → A)
      (kept : (req : Request) (w : World)
        → req.method ≡ codes "GET"
        → seen w ≡ seen (send req w).1) where
    seen-reply :
        (url : Text) (c : MetadataClient) (out : Result Response × World)
        → seen out.1 ≡ seen (reply host runtime (codes "GET") url c out).2
    seen-reply url c (err e, w) = refl
    seen-reply url c (ok resp, w) = refl

    seen-with_token :
        (ctx : Context) (url : Text) (out : Result Text × MetadataClient × World)
        → seen out.2 ≡ seen (with_token host runtime ctx (codes "GET") url none out).2
    seen-with_token ctx url (err e, c, w) = refl
    seen-with_token ctx url (ok t, c, w) =
        let req = api_request host runtime ctx (codes "GET") url none t in
        kept req w refl ∙ seen-reply url c (send req w)

    seen-with_url :
        (ctx : Context) (url : Text) (o : Option Error) (c : MetadataClient) (w : World)
        → seen w ≡ seen (with_url host runtime ctx (codes "GET") url none o c w).2
    seen-with_url ctx url (some e) c w = refl
    seen-with_url ctx url none c w =
        iam_token-sent host decode_token (λ v w. seen v ≡ seen w) (λ w. refl) kept c ctx w
        ∙ seen-with_token ctx url (iam_token host decode_token c ctx w)

    seen-decoded {κ} :
        {B : Type κ} (decode : Text → Result B) (url : Text)
        (out : Result Text × MetadataClient × World)
        → seen out.2 ≡ seen (decoded host runtime decode (codes "GET") url out).2
    seen-decoded decode url (err e, c, w) = refl
    seen-decoded decode url (ok raw, c, w) = refl

    seen-rows_of :
        (out : Result RouteTable × MetadataClient × World)
        → seen out.2 ≡ seen (rows_of host runtime out).2
    seen-rows_of (err e, c, w) = refl
    seen-rows_of (ok t, c, w) = refl

    seen-get_route_table :
        (m : Manager) (ctx : Context) (t : Text) (s : State host runtime)
        → seen s.1 ≡ seen (get_route_table host runtime m ctx t s).1.1
    unfolding get_route_table do_into do_raw
    seen-get_route_table m ctx t (c, w) =
        seen-with_url ctx (table_url host runtime m t) (check_url (table_url host runtime m t)) c w
        ∙ (seen-decoded decode_table (table_url host runtime m t)
              (do_raw host runtime ctx (codes "GET") (table_url host runtime m t) none c w)
            ∙ seen-rows_of (
                do_into host runtime decode_table ctx (codes "GET") (table_url host runtime m t)
                  none c w))

    seen-sync_tables :
        (m : Manager) (ctx : Context) (ts : List Text) (routes : List Prefix) (a : Addr)
        (cs : List Change) (errs : List Error) (s : State host runtime)
        → seen s.1 ≡ seen (sync_tables (service host runtime m ctx) ts routes a true cs errs s).1.1
    unfolding sync_tables
    seen-sync_tables m ctx [] routes a cs errs s = refl
    seen-sync_tables m ctx (t ∷ ts) routes a cs errs s =
        let api = service host runtime m ctx in
        seen-get_route_table m ctx t s
        ∙ (ap (λ (s : State host runtime). seen s.1) (sym (world-sync_table api t routes a s))
            ∙ seen-sync_tables m ctx ts routes a _ _ _)

    -- Whatever GET requests do not change is after a dry run of `Sync` as it was before.
    pub seen-sync :
        (m : Manager) (ctx : Context) (ts : List Text) (routes : List Prefix) (a : Addr)
        (s : State host runtime)
        → seen (sync (service host runtime m ctx) ts routes a true s).1.1 ≡ seen s.1
    unfolding sync
    seen-sync m ctx ts routes a s = sym (seen-sync_tables m ctx ts routes a [] [] s)

-- ===== src/Yandex/Stores.antt =====
-- internal/cloud/yandex/routes.go: `Sync` over all tables, and where the routes go behind it.
use mathlib.Core.Option
use cloud_route_manager.Base.{
  ◌≡◌, refl, ap, sym, ◌++◌, Text, text_eq, ◌==◌, true, false, List, [], ◌∷◌, arith, Option, none,
  some, Error, wrapf, Result, ok, err, is_empty, contains, All, to_list, subst, Bool-cases, inl,
  inr,
}
use cloud_route_manager.Netip.{Addr, Prefix, addr_string, prefix_eq, IsReadBack}
use cloud_route_manager.Cloud.{Change}
use cloud_route_manager.Yandex.{
  Row, merge, RouteTables, finish, sync_read, sync_table, sync_tables, sync,
}
use cloud_route_manager.Yandex.Rows.{held, points}
use cloud_route_manager.Yandex.Merging.{merge-points}
use cloud_route_manager.Yandex.Calls.{unmutated-desired}
use cloud_route_manager.Aws.Effects.{join-eq-none}

append-eq-nil : (xs ys : List Error) → xs ++ ys ≡ [] → (xs ≡ []) × (ys ≡ [])
append-eq-nil [] ys h = (refl, h)
append-eq-nil (x ∷ xs) ys h = cc h

no_error :
    (t : Text) (o : Option Error)
    → to_list (Option.map (wrapf "route table %s: %w" (t ∷ [])) o) ≡ []
    → o ≡ none
no_error t none h = refl
no_error t (some e) h = cc h

module _ (api : RouteTables) where
  open api use {World, get_route_table, update_static_routes}

  -- What the VPC service documents of its calls on several tables. `Holds w t rows` says that table
  -- `t` has these rows.
  pub record IsStore (Holds : World → Text → List Row → Type 0) : Type 0 where
    pub got :
        (t : Text) (rows : List Row) (w w' : World)
        → get_route_table t w ≡ (ok rows, w')
        → Holds w' t rows
    pub kept_by_get :
        (t u : Text) (rows : List Row) (w : World)
        → Holds w u rows
        → Holds (get_route_table t w).1 u rows
    pub put :
        (t : Text) (rows : List Row) (w w' : World)
        → update_static_routes t rows w ≡ (none, w')
        → Holds w' t rows
    pub kept_by_put :
        (t u : Text) (rows rows' : List Row) (w : World)
        → t == u ≡ false
        → Holds w u rows
        → Holds (update_static_routes t rows' w).1 u rows

  -- The table has rows of which the first one for the prefix goes to the next hop.
  abbrev pub SendsTo : (World → Text → List Row → Type 0) → Text → World → Text → Prefix → Type 0
  SendsTo Holds nh w u q = (rows : List Row) × Holds w u rows × (points nh (held q rows) ≡ true)

  module _ (Holds : World → Text → List Row → Type 0) (f : IsStore Holds) (routes : List Prefix)
      (a : Addr) (d : All IsReadBack routes) (n : is_empty (addr_string a) ≡ false) where
    abbrev Sends : World → Text → Prefix → Type 0
    Sends w u q = SendsTo Holds (addr_string a) w u q

    finish-Sends :
        (t : Text) (rows : List Row) (w : World) (q : Prefix)
        → Holds w t rows
        → (finish api t false (merge t routes (addr_string a) rows) w).0.1 ≡ none
        → contains routes q ≡ true
        → Sends (finish api t false (merge t routes (addr_string a) rows) w).1 t q
    unfolding finish
    finish-Sends t rows w q h e k =
        let m = merge t routes (addr_string a) rows in
        let good = merge-points t routes (addr_string a) n rows q d k in
        elim (Bool-cases m.mutated) [
          | inl p ↦
              let fine : (update_static_routes t m.desired w).0 ≡ none = rw p at e in
              let w' = (update_static_routes t m.desired w).1 in
              rw p (m.desired, f.put t m.desired w w' (ap (λ o. (o, w')) fine), good)
          | inr p ↦ rw p (
            m.desired,
            subst (Holds w t) (sym (unmutated-desired t routes (addr_string a) rows p)) h,
            good,
          )
        ]

    finish-keeps :
        (t u : Text) (rows : List Row) (w : World) (q : Prefix)
        → t == u ≡ false
        → Sends w u q
        → Sends (finish api t false (merge t routes (addr_string a) rows) w).1 u q
    unfolding finish
    finish-keeps t u rows w q x (held_rows, h, p) =
        let m = merge t routes (addr_string a) rows in
        elim (Bool-cases m.mutated) [
          | inl e ↦ rw e (held_rows, f.kept_by_put t u held_rows m.desired w x h, p)
          | inr e ↦ rw e (held_rows, h, p)
        ]

    sync_read-Sends :
        (t : Text) (w : World) (q : Prefix) (out : Result (List Row) × World)
        → get_route_table t w ≡ out
        → (sync_read api t routes a false out).0.1 ≡ none
        → contains routes q ≡ true
        → Sends (sync_read api t routes a false out).1 t q
    sync_read-Sends t w q (err e, w') g h k = cc h
    sync_read-Sends t w q (ok rows, w') g h k = finish-Sends t rows w' q (f.got t rows w w' g) h k

    sync_read-keeps :
        (t u : Text) (q : Prefix) (out : Result (List Row) × World)
        → t == u ≡ false
        → Sends out.1 u q
        → Sends (sync_read api t routes a false out).1 u q
    sync_read-keeps t u q (err e, w) x s = s
    sync_read-keeps t u q (ok rows, w) x s = finish-keeps t u rows w q x s

    sync_table-Sends :
        (t : Text) (w : World) (q : Prefix)
        → (sync_table api t routes a false w).0.1 ≡ none
        → contains routes q ≡ true
        → Sends (sync_table api t routes a false w).1 t q
    unfolding sync_table
    sync_table-Sends t w q h k = sync_read-Sends t w q (get_route_table t w) refl h k

    -- The table of the call, if it has no error, and another one.
    sync_table-Sends_on :
        (t u : Text) (w : World) (q : Prefix)
        → (sync_table api t routes a false w).0.1 ≡ none
        → contains routes q ≡ true
        → Sends w u q
        → Sends (sync_table api t routes a false w).1 u q
    unfolding sync_table
    sync_table-Sends_on t u w q h k s = elim (text_eq.dec t u) [
      | yes e ↦
          subst (λ x. Sends (sync_table api t routes a false w).1 x q) e
            (sync_table-Sends t w q h k)
      | no b ↦
          sync_read-keeps t u q (get_route_table t w) (ground (arith, b))
            (s.0, f.kept_by_get t u s.0 w s.1, s.2)
    ]

    -- If the loop has no error in the end, it had none at its start.
    sync_tables-quiet :
        (ts : List Text) (cs : List Change) (errs : List Error) (w : World)
        → (sync_tables api ts routes a false cs errs w).0.1 ≡ none
        → errs ≡ []
    unfolding sync_tables
    sync_tables-quiet [] cs errs w h = join-eq-none errs h
    sync_tables-quiet (t ∷ ts) cs errs w h = (append-eq-nil errs _ (sync_tables-quiet ts _ _ _ h)).0

    sync_tables_table :
        (t : Text) (ts : List Text) (cs : List Change) (errs : List Error) (w : World)
        → (sync_tables api (t ∷ ts) routes a false cs errs w).0.1 ≡ none
        → (sync_table api t routes a false w).0.1 ≡ none
    unfolding sync_tables
    sync_tables_table t ts cs errs w h =
        no_error t _ (append-eq-nil errs _ (sync_tables-quiet ts _ _ _ h)).1

    sync_tables-Sends_on :
        (ts : List Text) (cs : List Change) (errs : List Error) (w : World) (u : Text) (q : Prefix)
        → (sync_tables api ts routes a false cs errs w).0.1 ≡ none
        → contains routes q ≡ true
        → Sends w u q
        → Sends (sync_tables api ts routes a false cs errs w).1 u q
    unfolding sync_tables
    sync_tables-Sends_on [] cs errs w u q h k s = s
    sync_tables-Sends_on (t ∷ ts) cs errs w u q h k s =
        sync_tables-Sends_on ts _ _ _ u q h k
          (sync_table-Sends_on t u w q (sync_tables_table t ts cs errs w h) k s)

    sync_tables-Sends :
        (ts : List Text) (cs : List Change) (errs : List Error) (w : World) (u : Text) (q : Prefix)
        → (sync_tables api ts routes a false cs errs w).0.1 ≡ none
        → contains ts u ≡ true
        → contains routes q ≡ true
        → Sends (sync_tables api ts routes a false cs errs w).1 u q
    unfolding sync_tables
    sync_tables-Sends [] cs errs w u q h m k = cc m
    sync_tables-Sends (t ∷ ts) cs errs w u q h m k = elim (text_eq.dec t u) [
      | yes e ↦ sync_tables-Sends_on ts _ _ _ u q h k (
          subst (λ x. Sends (sync_table api t routes a false w).1 x q) e
            (sync_table-Sends t w q (sync_tables_table t ts cs errs w h) k))
      | no b ↦ sync_tables-Sends ts _ _ _ u q h (ground (arith, b, m)) k
    ]

    -- If a real `Sync` reports no error, then each table of its list has rows of which the first one
    -- for each route of its list goes to the address. This is for a service that keeps its tables
    -- apart, a next hop with a text that is not empty, and prefixes that are read back from their text.
    pub sync-SendsTo :
        (ts : List Text) (w : World) (u : Text) (q : Prefix)
        → (sync api ts routes a false w).0.1 ≡ none
        → contains ts u ≡ true
        → contains routes q ≡ true
        → SendsTo Holds (addr_string a) (sync api ts routes a false w).1 u q
    unfolding sync
    sync-SendsTo ts w u q h m k = sync_tables-Sends ts [] [] w u q h m k

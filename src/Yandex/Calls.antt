-- ===== src/Yandex/Calls.antt =====
-- internal/cloud/yandex/routes.go: the calls that `syncTable` makes.
use mathlib.Core.List.{append-nil, append_assoc}
use cloud_route_manager.Base.{
  ◌≡◌, refl, ap, ◌∙◌, sym, Text, text_eq, Bool, true, false, List, [], ◌∷◌, ◌++◌, arith, Option,
  none, some, Error, Result, ok, err, contains, All, Bool-cases, inl, inr, is_empty,
}
use cloud_route_manager.Netip.{Addr, Prefix, prefix_eq, IsReadBack, addr_string}
use cloud_route_manager.Cloud.{Change, is_noop}
use cloud_route_manager.Yandex.{
  Row, RouteTables, row_prefix, Merge, start, keep, claim, merge_row, merge_rows, create_row,
  create_rows, merge, finish, sync_read, sync_table,
}
use cloud_route_manager.Yandex.Rows.{held, points}
use cloud_route_manager.Yandex.Merging.{merge-points}
use cloud_route_manager.Yandex.Twice.{merge_settled}

module _ (table : Text) (routes : List Prefix) (nh : Text) where
  -- A round that creates a row leaves the mark set to the end.
  mutated-create_rows :
      (ps : List Prefix) (st : Merge)
      → st.mutated ≡ true
      → (create_rows table routes nh ps st).mutated ≡ true
  unfolding create_rows create_row
  mutated-create_rows [] st h = h
  mutated-create_rows (q ∷ ps) st h = mutated-create_rows ps _ (ground arith)

  mutated-create_row : (q : Prefix) (st : Merge) → (create_row table routes nh q st).mutated ≡ true
  unfolding create_row
  mutated-create_row q st = refl

  unmutated_create_rows :
      (ps : List Prefix) (st : Merge)
      → (create_rows table routes nh ps st).mutated ≡ false
      → create_rows table routes nh ps st ≡ st
  unfolding create_rows
  unmutated_create_rows [] st h = refl
  unmutated_create_rows (q ∷ ps) st h = elim (Bool-cases (contains st.seen q)) [
    | inl e ↦ rw (e, create_rows) (unmutated_create_rows ps st (rw (e, create_rows) at h))
    | inr e ↦ cc (
      mutated-create_rows ps (create_row table routes nh q st) (mutated-create_row q st),
      rw (e, create_rows) at h,
    )
  ]

  unmutated_claim :
      (x : Prefix) (row : Row) (st : Merge)
      → (claim table routes nh x row st).mutated ≡ false
      → (st.mutated ≡ false) × ((claim table routes nh x row st).desired ≡ st.desired ++ (row ∷ []))
  unfolding claim
  unmutated_claim x row st h = ground arith

  unmutated_row :
      (o : Option Prefix) (row : Row) (st : Merge)
      → (merge_row table routes nh o row st).mutated ≡ false
      → (st.mutated ≡ false)
        × ((merge_row table routes nh o row st).desired ≡ st.desired ++ (row ∷ []))
  unfolding merge_row keep
  unmutated_row none row st h = (h, refl)
  unmutated_row (some x) row st h = ground (arith, unmutated_claim x row st)

  desired-merge_rows :
      (rows : List Row) (st : Merge)
      → (merge_rows table routes nh rows st).mutated ≡ false
      → (st.mutated ≡ false) × ((merge_rows table routes nh rows st).desired ≡ st.desired ++ rows)
  unfolding merge_rows
  desired-merge_rows [] st h = (h, sym (append-nil st.desired))
  desired-merge_rows (row ∷ rows) st h =
      let (m, e) = desired-merge_rows rows _ h in
      let (m', e') = unmutated_row (row_prefix row) row st m in
      (m', e ∙ (ap (λ l. l ++ rows) e' ∙ append_assoc st.desired (row ∷ []) rows))

  -- If the merge would not send the table, its rows are those of the table.
  pub unmutated-desired :
      (rows : List Row)
      → (merge table routes nh rows).mutated ≡ false
      → (merge table routes nh rows).desired ≡ rows
  unfolding merge
  unmutated-desired rows h =
      let e = unmutated_create_rows routes (merge_rows table routes nh rows start) h in
      ap (λ (m : Merge). m.desired) e
      ∙ (desired-merge_rows rows start (ap (λ (m : Merge). m.mutated) (sym e) ∙ h)).1

module _ (api : RouteTables) where
  open api use {World, get_route_table, update_static_routes}

  -- What the VPC service documents of its two calls: a table that was updated is read back as it was
  -- sent, and reading a table does not change it.
  pub record IsFaithful : Type 0 where
    pub stored :
        (t : Text) (rows rows' : List Row) (w w' w'' : World)
        → update_static_routes t rows w ≡ (none, w')
        → get_route_table t w' ≡ (ok rows', w'')
        → rows' ≡ rows
    pub read_twice :
        (t : Text) (rows rows' : List Row) (w w' w'' : World)
        → get_route_table t w ≡ (ok rows, w')
        → get_route_table t w' ≡ (ok rows', w'')
        → rows' ≡ rows

  abbrev rows_of : Result (List Row) → List Row
  rows_of (ok rows) = rows
  rows_of (err e) = []

  changes-finish :
      (table : Text) (dry : Bool) (m : Merge) (w : World)
      → (finish api table dry m w).0.0 ≡ m.changes
  unfolding finish
  changes-finish table dry m w = ground arith

  -- A real run reports the changes that a dry run reports, also where the update fails.
  pub changes-sync_table :
      (table : Text) (routes : List Prefix) (a : Addr) (w : World)
      → (sync_table api table routes a false w).0.0 ≡ (sync_table api table routes a true w).0.0
  unfolding sync_table
  changes-sync_table table routes a w = ground (
    arith,
    changes-finish table false
        (merge table routes (addr_string a) (rows_of (get_route_table table w).0))
        (get_route_table table w).1,
    changes-finish table true
        (merge table routes (addr_string a) (rows_of (get_route_table table w).0))
        (get_route_table table w).1,
  )

  -- A dry run leaves the world as reading the table left it.
  pub world-sync_table :
      (table : Text) (routes : List Prefix) (a : Addr) (w : World)
      → (sync_table api table routes a true w).1 ≡ (get_route_table table w).1
  unfolding sync_table finish
  world-sync_table table routes a w = ground arith

  -- After a run without an error the table is read back as the merge has made it.
  read_back_finish :
      IsFaithful
      → (t : Text) (routes : List Prefix) (nh : Text) (w w₀ w₁ w₂ : World) (rows rows' : List Row)
        (cs : List Change)
      → get_route_table t w ≡ (ok rows, w₀)
      → finish api t false (merge t routes nh rows) w₀ ≡ ((cs, none), w₁)
      → get_route_table t w₁ ≡ (ok rows', w₂)
      → rows' ≡ (merge t routes nh rows).desired
  unfolding finish
  read_back_finish f t routes nh w w₀ w₁ w₂ rows rows' cs g h g' =
      let m = merge t routes nh rows in
      elim (Bool-cases m.mutated) [
        | inl e ↦
            let k = rw e at h in f.stored t m.desired rows' w₀ w₁ w₂ (λ i. ((k i).0.1, (k i).1)) g'
        | inr e ↦
            let k = ap (λ r. r.1) (rw e at h) in
            f.read_twice t rows rows' w w₀ w₂ g (rw k g')
            ∙ sym (unmutated-desired t routes nh rows e)
      ]

  settled_finish :
      (t : Text) (routes : List Prefix) (nh : Text) (rows : List Row) (w : World)
      → ((p : Prefix) → contains routes p ≡ true → points nh (held p rows) ≡ true)
      → (cs : List Change) × (finish api t false (merge t routes nh rows) w ≡ ((cs, none), w))
        × All (λ c. is_noop c.action ≡ true) cs
  unfolding finish
  settled_finish t routes nh rows w h =
      let (quiet, noops) = merge_settled t routes nh rows h in
      ((merge t routes nh rows).changes, rw quiet refl, noops)

  pub sync_table_read :
      (t : Text) (routes : List Prefix) (a : Addr) (dry : Bool) (w w₀ : World) (rows : List Row)
      → get_route_table t w ≡ (ok rows, w₀)
      → sync_table api t routes a dry w ≡ finish api t dry (merge t routes (addr_string a) rows) w₀
  unfolding sync_table
  sync_table_read t routes a dry w w₀ rows g = ap (sync_read api t routes a dry) g

  pub sync_table_unread :
      (t : Text) (routes : List Prefix) (a : Addr) (dry : Bool) (w w₀ : World) (e : Error)
      → get_route_table t w ≡ (err e, w₀)
      → sync_table api t routes a dry w ≡ (([], some e), w₀)
  unfolding sync_table
  sync_table_unread t routes a dry w w₀ e g = ap (sync_read api t routes a dry) g

  twice_of :
      IsFaithful
      → (t : Text) (routes : List Prefix) (a : Addr) (w w₁ w₂ : World) (rows' : List Row)
        (cs : List Change) (out : Result (List Row) × World)
      → All IsReadBack routes
      → is_empty (addr_string a) ≡ false
      → get_route_table t w ≡ out
      → sync_table api t routes a false w ≡ ((cs, none), w₁)
      → get_route_table t w₁ ≡ (ok rows', w₂)
      → (p : Prefix) → contains routes p ≡ true
      → points (addr_string a) (held p rows') ≡ true
  twice_of f t routes a w w₁ w₂ rows' cs (err e, w₀) b n g h g' p m =
      cc (sync_table_unread t routes a false w w₀ e g)
  twice_of f t routes a w w₁ w₂ rows' cs (ok rows, w₀) b n g h g' p m =
      let h' = sym (sync_table_read t routes a false w w₀ rows g) ∙ h in
      rw (read_back_finish f t routes (addr_string a) w w₀ w₁ w₂ rows rows' cs g h' g')
        (merge-points t routes (addr_string a) n rows p b m)

  -- After a real run without an error, a second run that can read the table sends nothing: the world
  -- is the one that reading left, it reports no-ops only, and no error. This is for a service that
  -- gives a table back as it was sent, a next hop with a text that is not empty, and prefixes that are
  -- read back from their text.
  pub sync_table_again :
      IsFaithful
      → (t : Text) (routes : List Prefix) (a : Addr) (w w₁ w₂ : World) (rows' : List Row)
        (cs : List Change)
      → All IsReadBack routes
      → is_empty (addr_string a) ≡ false
      → sync_table api t routes a false w ≡ ((cs, none), w₁)
      → get_route_table t w₁ ≡ (ok rows', w₂)
      → (ds : List Change) × (sync_table api t routes a false w₁ ≡ ((ds, none), w₂))
        × All (λ c. is_noop c.action ≡ true) ds
  sync_table_again f t routes a w w₁ w₂ rows' cs b n h g' =
      let (ds, e, noops) =
        settled_finish t routes (addr_string a) rows' w₂
          (twice_of f t routes a w w₁ w₂ rows' cs (get_route_table t w) b n refl h g') in
      (ds, sync_table_read t routes a false w₁ w₂ rows' g' ∙ e, noops)

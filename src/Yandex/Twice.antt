-- ===== src/Yandex/Twice.antt =====
-- internal/cloud/yandex/routes.go: merging a table whose rows go to the next hop.
use cloud_route_manager.Base.{
  ◌≡◌, refl, ap, ◌∙◌, sym, Text, text_eq, true, false, ◌||◌, not, List, [], ◌∷◌, arith, ◌==◌,
  Option, none, some, contains, All, All-append, Bool-cases, inl, inr, is_none,
}
use cloud_route_manager.Netip.{Prefix, prefix_eq}
use cloud_route_manager.Cloud.{Change, is_noop}
use cloud_route_manager.Yandex.{
  Row, row_prefix, Merge, start, keep, claim, merge_row, merge_rows, create_rows, merge,
  previous_next_hop,
}
use cloud_route_manager.Yandex.Rows.{has_prefix, held, points, held-cons, held-nil}

module _ (table : Text) (routes : List Prefix) (nh : Text) where
  -- Each wanted prefix that was not seen has no row in the rest, or its first row goes to the hop.
  abbrev Settled : List Row → Merge → Type 0
  Settled rows st =
      (p : Prefix)
      → contains routes p ≡ true
      → contains st.seen p ≡ false
      → (is_none (held p rows) || points nh (held p rows)) ≡ true

  record Quiet (st : Merge) : Type 0 where
    quiet : st.mutated ≡ false
    all_noop : All (λ (c : Change). is_noop c.action ≡ true) st.changes

  keep-Quiet : (row : Row) (st : Merge) → Quiet st → Quiet (keep table routes nh row st)
  unfolding keep
  keep-Quiet row st q = record { quiet = q.quiet; all_noop = q.all_noop }

  claim-Quiet :
      (p : Prefix) (row : Row) (st : Merge)
      → (previous_next_hop row == nh) ≡ true
      → Quiet st
      → Quiet (claim table routes nh p row st)
  unfolding claim
  claim-Quiet p row st e q = rw e (record {
    quiet = q.quiet;
    all_noop =
        All-append (λ (c : Change). is_noop c.action ≡ true) st.changes _ q.all_noop (refl, tt);
  })

  Settled-skip :
      (row : Row) (rows : List Row) (st st' : Merge)
      → st'.seen ≡ st.seen
      → ((p : Prefix)
          → contains routes p ≡ true
          → contains st.seen p ≡ false
          → has_prefix p row ≡ false)
      → Settled (row ∷ rows) st
      → Settled rows st'
  Settled-skip row rows st st' e n s p w u =
      let u' = ap (λ l. contains l p) (sym e) ∙ u in
      ground (arith, s p w u', n p w u', held-cons p row rows)

  Settled-claim :
      (x : Prefix) (row : Row) (rows : List Row) (st st' : Merge)
      → st'.seen ≡ x ∷ st.seen
      → row_prefix row ≡ some x
      → Settled (row ∷ rows) st
      → Settled rows st'
  Settled-claim x row rows st st' e r s p w u =
      let u' = ap (λ l. contains l p) (sym e) ∙ u in
      ground (arith, u', s p w (ground (arith, u')), held-cons p row rows)

  claim-seen :
      (x : Prefix) (row : Row) (st : Merge) → (claim table routes nh x row st).seen ≡ x ∷ st.seen
  unfolding claim
  claim-seen x row st = ground arith

  -- The first row of a prefix is the one that is claimed.
  claimed-points :
      (x : Prefix) (row : Row) (rows : List Row) (st : Merge)
      → contains routes x ≡ true
      → contains st.seen x ≡ false
      → row_prefix row ≡ some x
      → Settled (row ∷ rows) st
      → (previous_next_hop row == nh) ≡ true
  claimed-points x row rows st w u r s = ground (arith, s x w u, held-cons x row rows)

  Step : List Row → Merge → Type 0
  Step rows st = Quiet st × Settled rows st

  keep-Step :
      (row : Row) (rows : List Row) (st : Merge)
      → ((p : Prefix)
          → contains routes p ≡ true
          → contains st.seen p ≡ false
          → has_prefix p row ≡ false)
      → Step (row ∷ rows) st
      → Step rows (keep table routes nh row st)
  unfolding Step
  keep-Step row rows st n (q, s) = (
    keep-Quiet row st q,
    Settled-skip row rows st (keep table routes nh row st) (unfold keep in refl) n s,
  )

  merge_row-Step :
      (o : Option Prefix) (row : Row) (rows : List Row) (st : Merge)
      → row_prefix row ≡ o
      → Step (row ∷ rows) st
      → Step rows (merge_row table routes nh o row st)
  unfolding merge_row Step
  merge_row-Step none row rows st e h = keep-Step row rows st (λ p w u. ground arith) h
  merge_row-Step (some x) row rows st e h = elim (Bool-cases (contains routes x)) [
    | inl w ↦ elim (Bool-cases (contains st.seen x)) [
      | inl k ↦ rw (w, k) (keep-Step row rows st (λ p w' u. ground arith) h)
      | inr k ↦
          rw (w, k)
            (
              claim-Quiet x row st (claimed-points x row rows st w k e h.1) h.0,
              Settled-claim x row rows st (claim table routes nh x row st) (claim-seen x row st) e
                  h.1,
            )
    ]
    | inr w ↦ rw w (keep-Step row rows st (λ p w' u. ground arith) h)
  ]

  merge_rows-Quiet :
      (rows : List Row) (st : Merge) → Step rows st → Quiet (merge_rows table routes nh rows st)
  unfolding merge_rows Step
  merge_rows-Quiet [] st h = h.0
  merge_rows-Quiet (row ∷ rows) st h =
      merge_rows-Quiet rows _ (merge_row-Step (row_prefix row) row rows st refl h)

  -- A prefix once seen stays seen, and one that a row has is seen at the end.
  seen-merge_row :
      (o : Option Prefix) (row : Row) (st : Merge) (p : Prefix)
      → row_prefix row ≡ o
      → contains routes p ≡ true
      → (contains st.seen p || has_prefix p row) ≡ true
      → contains (merge_row table routes nh o row st).seen p ≡ true
  unfolding merge_row keep
  seen-merge_row none row st p e w h = ground arith
  seen-merge_row (some x) row st p e w h =
      ground (arith, claim-seen x row st, ap (λ l. contains l p) (claim-seen x row st))

  seen-merge_rows :
      (rows : List Row) (st : Merge) (p : Prefix)
      → contains routes p ≡ true
      → (contains st.seen p || not (is_none (held p rows))) ≡ true
      → contains (merge_rows table routes nh rows st).seen p ≡ true
  unfolding merge_rows
  seen-merge_rows [] st p w h = ground (arith, held-nil p)
  seen-merge_rows (row ∷ rows) st p w h =
      seen-merge_rows rows _ p w
        (ground (arith, held-cons p row rows, seen-merge_row (row_prefix row) row st p refl w))

  create_rows_seen :
      (ps : List Prefix) (st : Merge)
      → ((p : Prefix) → contains ps p ≡ true → contains st.seen p ≡ true)
      → create_rows table routes nh ps st ≡ st
  unfolding create_rows
  create_rows_seen [] st h = refl
  create_rows_seen (q ∷ ps) st h =
      rw (h q (ground arith), create_rows) (create_rows_seen ps st (λ p m. h p (ground arith)))

  -- If each wanted prefix has its first row at the next hop, the merge reports no-ops only and would
  -- not send the table.
  pub merge_settled :
      (rows : List Row)
      → ((p : Prefix) → contains routes p ≡ true → points nh (held p rows) ≡ true)
      → ((merge table routes nh rows).mutated ≡ false)
        × All (λ c. is_noop c.action ≡ true) (merge table routes nh rows).changes
  unfolding merge Step
  merge_settled rows h =
      let q =
        merge_rows-Quiet rows start
          (record { quiet = refl; all_noop = tt }, λ p w u. ground (arith, h p w)) in
      rw
        (create_rows_seen routes (merge_rows table routes nh rows start)
          λ p w. seen-merge_rows rows start p w (ground (arith, h p w)))
        (q.quiet, q.all_noop)

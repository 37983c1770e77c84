-- ===== src/Yandex/Kept.antt =====
-- internal/cloud/yandex/routes.go: the rows, and the fields of rows, that are not the merge's own.
use mathlib.Core.List.{append-nil, append_assoc}
use cloud_route_manager.Base.{
  ◌≡◌, refl, ap, ◌∙◌, sym, subst, Text, text_eq, Bool, true, false, ◌||◌, not, List, [], ◌∷◌, ◌++◌,
  arith, ◌==◌, if◌then◌else◌, Option, none, some, contains, All, Bool-cases, inl, inr,
}
use cloud_route_manager.Base.Maps.{lookup}
use cloud_route_manager.Netip.{Prefix, prefix_eq, IsReadBack}
use cloud_route_manager.Yandex.{
  Row, row_prefix, take_over, new_row, next_hop_key, gateway_key, Merge, start, keep, claim,
  merge_row, merge_rows, create_row, create_rows, merge, previous_next_hop,
}
use cloud_route_manager.Yandex.Rows.{row_prefix-take_over, row_prefix-new_row, lookup-take_over}

module _ (table : Text) (routes : List Prefix) (nh : Text) where
  abbrev unwanted : Option Prefix → Bool
  unwanted none = true
  unwanted (some q) = not (contains routes q)

  -- The rows whose prefix is not in the list.
  abbrev pub others : List Row → List Row
  others [] = []
  others (row ∷ rows) = if unwanted (row_prefix row) then row ∷ others rows else others rows

  others-append : (xs ys : List Row) → others (xs ++ ys) ≡ others xs ++ others ys
  others-append [] ys = refl
  others-append (x ∷ xs) ys = ground (arith, others-append xs ys)

  others-claim :
      (q : Prefix) (row : Row) (st : Merge)
      → row_prefix row ≡ some q
      → contains routes q ≡ true
      → others (claim table routes nh q row st).desired ≡ others st.desired
  unfolding claim
  others-claim q row st e w = ground (
    arith,
    others-append st.desired (row ∷ []),
    others-append st.desired (take_over nh row ∷ []),
    row_prefix-take_over nh row,
    append-nil (others st.desired),
  )

  others-merge_row :
      (o : Option Prefix) (row : Row) (st : Merge)
      → row_prefix row ≡ o
      → others (merge_row table routes nh o row st).desired ≡ others st.desired ++ others (row ∷ [])
  unfolding merge_row keep
  others-merge_row none row st e = others-append st.desired (row ∷ [])
  others-merge_row (some q) row st e = ground (
    arith,
    others-append st.desired (row ∷ []),
    others-claim q row st e,
    append-nil (others st.desired),
  )

  others-merge_rows :
      (rows : List Row) (st : Merge)
      → others (merge_rows table routes nh rows st).desired ≡ others st.desired ++ others rows
  unfolding merge_rows
  others-merge_rows [] st = sym (append-nil (others st.desired))
  others-merge_rows (row ∷ rows) st =
      others-merge_rows rows _
      ∙ (ap (λ l. l ++ others rows) (others-merge_row (row_prefix row) row st refl)
          ∙ (append_assoc (others st.desired) (others (row ∷ [])) (others rows)
              ∙ ap (λ l. others st.desired ++ l) (sym (others-append (row ∷ []) rows))))

  others-create_rows :
      (ps : List Prefix) (st : Merge)
      → All IsReadBack ps
      → ((q : Prefix) → contains ps q ≡ true → contains routes q ≡ true)
      → others (create_rows table routes nh ps st).desired ≡ others st.desired
  unfolding create_rows create_row
  others-create_rows [] st b h = refl
  others-create_rows (q ∷ ps) st b h =
      others-create_rows ps _ b.1 (λ x k. h x (ground arith))
      ∙ ground (
        arith,
        h q,
        others-append st.desired (new_row nh q ∷ []),
        row_prefix-new_row nh q b.0,
        append-nil (others st.desired),
      )

  -- The rows of prefixes that are not in the list, and the rows with no readable prefix, are sent
  -- back as they are and in their order, if the prefixes of the list are read back from their text.
  pub merge-others :
      (rows : List Row)
      → All IsReadBack routes
      → others (merge table routes nh rows).desired ≡ others rows
  unfolding merge
  merge-others rows b = others-create_rows routes _ b (λ q k. k) ∙ others-merge_rows rows start

  -- Two rows that agree in every field but the next hop and the gateway.
  abbrev pub SameElse : Row → Row → Type 0
  SameElse row row' =
      (k : Text)
      → (next_hop_key == k) ≡ false
      → (gateway_key == k) ≡ false
      → lookup k row' ≡ lookup k row

  -- The second list has a row for each row of the first, in order, that agrees so with it; more rows
  -- may follow.
  abbrev pub Extends : List Row → List Row → Type 0
  Extends [] ds = Unit
  Extends (r ∷ rs) [] = ⊥
  Extends (r ∷ rs) (d ∷ ds) = SameElse r d × Extends rs ds

  Extends-append : (rs ds es : List Row) → Extends rs ds → Extends rs (ds ++ es)
  Extends-append [] ds es h = tt
  Extends-append (r ∷ rs) [] es h = absurd h
  Extends-append (r ∷ rs) (d ∷ ds) es h = (h.0, Extends-append rs ds es h.1)

  -- The row that a round appends.
  abbrev Appended : Row → Merge → Merge → Type 0
  Appended row st st' = (d : Row) × (st'.desired ≡ st.desired ++ (d ∷ [])) × SameElse row d

  claim-Appended :
      (q : Prefix) (row : Row) (st : Merge) → Appended row st (claim table routes nh q row st)
  unfolding claim
  claim-Appended q row st = elim (Bool-cases (previous_next_hop row == nh)) [
    | inl e ↦ (row, rw e, λ k n g. refl)
    | inr e ↦ (take_over nh row, rw e, λ k n g. lookup-take_over nh row k n g)
  ]

  merge_row-Appended :
      (o : Option Prefix) (row : Row) (st : Merge)
      → Appended row st (merge_row table routes nh o row st)
  unfolding merge_row keep
  merge_row-Appended none row st = (row, refl, λ k n g. refl)
  merge_row-Appended (some q) row st =
      elim (Bool-cases (not (contains routes q) || contains st.seen q)) [
        | inl e ↦ (row, rw e, λ k n g. refl)
        | inr e ↦ rw e (claim-Appended q row st)
      ]

  merge_rows-Extends :
      (rows : List Row) (st : Merge)
      → (ds : List Row) × ((merge_rows table routes nh rows st).desired ≡ st.desired ++ ds)
        × Extends rows ds
  unfolding merge_rows
  merge_rows-Extends [] st = ([], sym (append-nil st.desired), tt)
  merge_rows-Extends (row ∷ rows) st =
      let (d, e, same) = merge_row-Appended (row_prefix row) row st in
      let (ds, e', rest) =
        merge_rows-Extends rows (merge_row table routes nh (row_prefix row) row st) in
      (d ∷ ds, e' ∙ (ap (λ l. l ++ ds) e ∙ append_assoc st.desired (d ∷ []) ds), (same, rest))

  desired-create_row :
      (q : Prefix) (st : Merge)
      → (create_row table routes nh q st).desired ≡ st.desired ++ (new_row nh q ∷ [])
  unfolding create_row
  desired-create_row q st = refl

  create_rows-appends :
      (ps : List Prefix) (st : Merge)
      → (ds : List Row) × ((create_rows table routes nh ps st).desired ≡ st.desired ++ ds)
  unfolding create_rows
  create_rows-appends [] st = ([], sym (append-nil st.desired))
  create_rows-appends (q ∷ ps) st = elim (Bool-cases (contains st.seen q)) [
    | inl e ↦ let (ds, e') = create_rows-appends ps st in (ds, rw (e, create_rows) e')
    | inr e ↦
        let (ds, e') = create_rows-appends ps (create_row table routes nh q st) in
        (
          new_row nh q ∷ ds,
          rw (e, create_rows)
              (e'
                ∙ (ap (λ l. l ++ ds) (desired-create_row q st)
                    ∙ append_assoc st.desired (new_row nh q ∷ []) ds)),
        )
  ]

  -- Every row of the table is sent back at its place, with every field as it was except the next hop
  -- and the gateway; new rows follow.
  pub merge-Extends : (rows : List Row) → Extends rows (merge table routes nh rows).desired
  unfolding merge
  merge-Extends rows =
      let (ds, e, h) = merge_rows-Extends rows start in
      let (es, e') = create_rows-appends routes (merge_rows table routes nh rows start) in
      subst (Extends rows) (sym (e' ∙ ap (λ l. l ++ es) e)) (Extends-append rows ds es h)

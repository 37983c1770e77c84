-- ===== src/Yandex/Merging.antt =====
-- internal/cloud/yandex/routes.go: the row of each wanted prefix in the merged rows.
use cloud_route_manager.Base.{
  ◌≡◌, refl, ap, ◌∙◌, subst, Text, text_eq, Bool, true, false, ◌||◌, List, [], ◌∷◌, ◌++◌, arith,
  ◌==◌, if◌then◌else◌, is_empty, Option, none, some, contains, All, Bool-cases, inl, inr, is_none,
  eq_self,
}
use cloud_route_manager.Netip.{Prefix, prefix_eq, IsReadBack}
use cloud_route_manager.Yandex.{
  Row, previous_next_hop, row_prefix, take_over, new_row, Merge, start, keep, claim, merge_row,
  merge_rows, create_row, create_rows, merge,
}
use cloud_route_manager.Yandex.Rows.{
  has_prefix, held, points, held-nil, held-snoc, row_prefix-take_over, next_hop-take_over,
  row_prefix-new_row, next_hop-new_row,
}

module _ (table : Text) (routes : List Prefix) (nh : Text) (set : is_empty nh ≡ false) where
  -- What holds between two rounds: a prefix that was seen is wanted and has its row, and a wanted
  -- prefix that was not seen has none.
  pub record IsMerged (st : Merge) : Type 0 where
    pub seen_points :
        (p : Prefix) → contains st.seen p ≡ true → points nh (held p st.desired) ≡ true
    pub unseen_absent :
        (p : Prefix)
        → contains routes p ≡ true
        → contains st.seen p ≡ false
        → held p st.desired ≡ none

  start-IsMerged : IsMerged start
  start-IsMerged = record { seen_points = λ p h. cc h; unseen_absent = λ p h k. held-nil p }

  -- A row that belongs to no wanted prefix, or to one that was seen, may follow.
  keep-IsMerged :
      (row : Row) (st : Merge)
      → ((p : Prefix)
          → contains routes p ≡ true
          → contains st.seen p ≡ false
          → has_prefix p row ≡ false)
      → IsMerged st
      → IsMerged (keep table routes nh row st)
  unfolding keep
  keep-IsMerged row st h v = record {
    seen_points = λ p s. ground (arith, v.seen_points p s, held-snoc p st.desired row);
    unseen_absent =
        λ p w u. ground (arith, v.unseen_absent p w u, held-snoc p st.desired row, h p w u);
  }

  -- The row of a wanted prefix follows, at its next hop.
  put-IsMerged :
      (q : Prefix) (row : Row) (st st' : Merge)
      → contains routes q ≡ true
      → contains st.seen q ≡ false
      → row_prefix row ≡ some q
      → (previous_next_hop row == nh) ≡ true
      → st'.seen ≡ q ∷ st.seen
      → st'.desired ≡ st.desired ++ (row ∷ [])
      → IsMerged st
      → IsMerged st'
  put-IsMerged q row st st' w u e k s d v = record {
    seen_points = λ p m. elim (prefix_eq.dec q p) [
      | yes f ↦
          subst (λ x. points nh (held x st'.desired) ≡ true) f
            (rw d (ground (arith, held-snoc q st.desired row, v.unseen_absent q w u)))
      | no n ↦ rw d (
          ground (
            arith,
            held-snoc p st.desired row,
            v.seen_points p (ground (arith, ap (λ l. contains l p) s)),
          ))
    ];
    unseen_absent = λ p w' u'. rw d (
        ground (
          arith,
          held-snoc p st.desired row,
          v.unseen_absent p w' (ground (arith, ap (λ l. contains l p) s)),
          ap (λ l. contains l p) s,
        ));
  }

  claim-IsMerged :
      (q : Prefix) (row : Row) (st : Merge)
      → contains routes q ≡ true
      → contains st.seen q ≡ false
      → row_prefix row ≡ some q
      → IsMerged st
      → IsMerged (claim table routes nh q row st)
  unfolding claim
  claim-IsMerged q row st w u e v = elim (Bool-cases (previous_next_hop row == nh)) [
    | inl k ↦ rw k (put-IsMerged q row st _ w u e k refl refl v)
    | inr k ↦ rw k (
        put-IsMerged q (take_over nh row) st _ w u (row_prefix-take_over nh row ∙ e)
          (rw (next_hop-take_over nh row set) (eq_self nh)) refl refl v)
  ]

  merge_row-IsMerged :
      (o : Option Prefix) (row : Row) (st : Merge)
      → row_prefix row ≡ o
      → IsMerged st
      → IsMerged (merge_row table routes nh o row st)
  unfolding merge_row
  merge_row-IsMerged none row st e v = keep-IsMerged row st (λ p w u. ground arith) v
  merge_row-IsMerged (some q) row st e v = elim (Bool-cases (contains routes q)) [
    | inl w ↦ elim (Bool-cases (contains st.seen q)) [
      | inl s ↦ rw (w, s) (keep-IsMerged row st (λ p _ u. ground arith) v)
      | inr s ↦ rw (w, s) (claim-IsMerged q row st w s e v)
    ]
    | inr w ↦ rw w (keep-IsMerged row st (λ p w' u. ground arith) v)
  ]

  pub merge_rows-IsMerged :
      (rows : List Row) (st : Merge) → IsMerged st → IsMerged (merge_rows table routes nh rows st)
  unfolding merge_rows
  merge_rows-IsMerged [] st v = v
  merge_rows-IsMerged (row ∷ rows) st v =
      merge_rows-IsMerged rows _ (merge_row-IsMerged (row_prefix row) row st refl v)

  -- A prefix has no row yet, or its row goes to the next hop.
  abbrev ready : Prefix → Merge → Bool
  ready p st = is_none (held p st.desired) || points nh (held p st.desired)

  create_row-points :
      (q : Prefix) (st : Merge) (p : Prefix)
      → points nh (held p st.desired) ≡ true
      → points nh (held p (create_row table routes nh q st).desired) ≡ true
  unfolding create_row
  create_row-points q st p h = ground (arith, held-snoc p st.desired (new_row nh q))

  create_row-makes :
      (q : Prefix) (st : Merge)
      → IsReadBack q
      → ready q st ≡ true
      → points nh (held q (create_row table routes nh q st).desired) ≡ true
  unfolding create_row
  create_row-makes q st b h = ground (
    arith,
    held-snoc q st.desired (new_row nh q),
    row_prefix-new_row nh q b,
    next_hop-new_row nh q set,
  )

  create_row-ready :
      (q : Prefix) (st : Merge) (p : Prefix)
      → IsReadBack q
      → ready p st ≡ true
      → ready p (create_row table routes nh q st) ≡ true
  unfolding create_row
  create_row-ready q st p b h = ground (
    arith,
    held-snoc p st.desired (new_row nh q),
    row_prefix-new_row nh q b,
    next_hop-new_row nh q set,
  )

  create_rows-points :
      (ps : List Prefix) (st : Merge) (p : Prefix)
      → points nh (held p st.desired) ≡ true
      → points nh (held p (create_rows table routes nh ps st).desired) ≡ true
  unfolding create_rows
  create_rows-points [] st p h = h
  create_rows-points (q ∷ ps) st p h =
      create_rows-points ps _ p (ground (arith, create_row-points q st p h))

  -- One round of the loop.
  abbrev next : Prefix → Merge → Merge
  next q st = if contains st.seen q then st else create_row table routes nh q st

  SeenPoints : Merge → Type 0
  SeenPoints st = (q : Prefix) → contains st.seen q ≡ true → points nh (held q st.desired) ≡ true

  next-SeenPoints : (q : Prefix) (st : Merge) → SeenPoints st → SeenPoints (next q st)
  unfolding SeenPoints
  next-SeenPoints q st s p m = elim (Bool-cases (contains st.seen q)) [
    | inl e ↦ rw e (s p (rw e at m))
    | inr e ↦ rw e (create_row-points q st p (s p (unfold create_row in rw e at m)))
  ]

  next-makes :
      (q : Prefix) (st : Merge)
      → IsReadBack q
      → ready q st ≡ true
      → SeenPoints st
      → points nh (held q (next q st).desired) ≡ true
  unfolding SeenPoints
  next-makes q st b r s = elim (Bool-cases (contains st.seen q)) [
    | inl e ↦ rw e (s q e)
    | inr e ↦ rw e (create_row-makes q st b r)
  ]

  next-ready :
      (q : Prefix) (st : Merge) (p : Prefix)
      → IsReadBack q
      → ready p st ≡ true
      → ready p (next q st) ≡ true
  next-ready q st p b r = elim (Bool-cases (contains st.seen q)) [
    | inl e ↦ rw e r
    | inr e ↦ rw e (create_row-ready q st p b r)
  ]

  create_rows-makes :
      (ps : List Prefix) (st : Merge) (p : Prefix)
      → All IsReadBack ps
      → ((q : Prefix) → contains ps q ≡ true → ready q st ≡ true)
      → SeenPoints st
      → contains ps p ≡ true
      → points nh (held p (create_rows table routes nh ps st).desired) ≡ true
  unfolding create_rows
  create_rows-makes [] st p b r s m = cc m
  create_rows-makes (q ∷ ps) st p b r s m = elim (prefix_eq.dec q p) [
    | yes e ↦ create_rows-points ps (next q st) p (
        subst (λ x. points nh (held x (next q st).desired) ≡ true) e
          (next-makes q st b.0 (r q (ground arith)) s))
    | no n ↦
        create_rows-makes ps (next q st) p b.1 (λ x k. next-ready q st x b.0 (r x (ground arith)))
          (next-SeenPoints q st s) (ground arith)
  ]

  -- In the merged rows the first row of each wanted prefix goes to the next hop, if the text of the
  -- next hop is not empty and the prefixes are read back from their text.
  pub merge-points :
      (rows : List Row) (p : Prefix)
      → All IsReadBack routes
      → contains routes p ≡ true
      → points nh (held p (merge table routes nh rows).desired) ≡ true
  unfolding merge SeenPoints
  merge-points rows p b m =
      let st = merge_rows table routes nh rows start in
      let v = merge_rows-IsMerged rows start start-IsMerged in
      create_rows-makes routes st p b (λ q k. ground (arith, v.seen_points q, v.unseen_absent q k))
        v.seen_points m

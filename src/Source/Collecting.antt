-- ===== src/Source/Collecting.antt =====
-- internal/source/source.go: what `Collect` returns, by what each source answers.
use mathlib.Core.List.{append-nil, append_assoc}
use cloud_route_manager.Base.{
  ◌≡◌, refl, ap, ◌∙◌, sym, Text, Bool, false, ◌||◌, List, [], ◌∷◌, ◌++◌, arith, none, some, Error,
  wrapf, join, contains,
}
use cloud_route_manager.Base.Sorting.{Ascending}
use cloud_route_manager.Netip.{Prefix, prefix_eq}
use cloud_route_manager.Routes.{RouteSet, less, sorted}
use cloud_route_manager.Routes.Sets.{
  IsValid, new_set-IsValid, add_all-IsValid, contains-add_all, contains-sorted, sorted-Ascending,
  sorted_unique,
}
use cloud_route_manager.Source.{
  Fetched, Source, Collector, new_collector, gather, collect_all, collect,
}

-- A source answers with routes and no error, and the prefix is one of them.
abbrev gives : Fetched → Prefix → Bool
gives (found, none) p = contains found p
gives (found, some e) p = false

-- Some source of the list gives the prefix.
abbrev pub offered : List (Text × Fetched) → Prefix → Bool
offered [] p = false
offered ((name, r) ∷ answers) p = gives r p || offered answers p

-- The errors of the sources that fail, each with the name of its source.
abbrev pub failures : List (Text × Fetched) → List Error
failures [] = []
failures ((name, (found, none)) ∷ answers) = failures answers
failures ((name, (found, some e)) ∷ answers) =
    wrapf "source %s: %w" (name ∷ []) e ∷ failures answers

module _ (World : Type 0) where
  -- What the sources answer, asked one after the other.
  unfoldable pub answers : List (Source World) → World → List (Text × Fetched)
  answers [] w = []
  answers (s ∷ sources) w = let (r, w') = s.fetch w in (s.name, r) ∷ answers sources w'

  gather_all : List (Text × Fetched) → Collector World → Collector World
  gather_all [] c = c
  gather_all ((name, r) ∷ rs) c = gather_all rs (gather World name r c)

  collect_all-answers :
      (sources : List (Source World)) (c : Collector World) (w : World)
      → (collect_all World sources c w).0 ≡ gather_all (answers sources w) c
  unfolding collect_all answers gather_all
  collect_all-answers [] c w = refl
  collect_all-answers (s ∷ sources) c w = collect_all-answers sources _ _

  gather-IsValid :
      (name : Text) (r : Fetched) (c : Collector World)
      → IsValid c.set
      → IsValid (gather World name r c).set
  unfolding gather
  gather-IsValid name (found, none) c v = add_all-IsValid found c.set v
  gather-IsValid name (found, some e) c v = v

  gather_all-IsValid :
      (rs : List (Text × Fetched)) (c : Collector World)
      → IsValid c.set
      → IsValid (gather_all rs c).set
  unfolding gather_all
  gather_all-IsValid [] c v = v
  gather_all-IsValid ((name, r) ∷ rs) c v = gather_all-IsValid rs _ (gather-IsValid name r c v)

  contains-gather :
      (name : Text) (r : Fetched) (c : Collector World) (p : Prefix)
      → IsValid c.set
      → contains (gather World name r c).set.items p ≡ (gives r p || contains c.set.items p)
  unfolding gather
  contains-gather name (found, none) c p v = contains-add_all found c.set p v
  contains-gather name (found, some e) c p v = refl

  contains-gather_all :
      (rs : List (Text × Fetched)) (c : Collector World) (p : Prefix)
      → IsValid c.set
      → contains (gather_all rs c).set.items p ≡ (offered rs p || contains c.set.items p)
  unfolding gather_all
  contains-gather_all [] c p v = refl
  contains-gather_all ((name, r) ∷ rs) c p v = ground (
    arith,
    contains-gather_all rs (gather World name r c) p (gather-IsValid name r c v),
    contains-gather name r c p v,
  )

  errs-gather_all :
      (rs : List (Text × Fetched)) (c : Collector World)
      → (gather_all rs c).errs ≡ c.errs ++ failures rs
  unfolding gather_all gather
  errs-gather_all [] c = sym (append-nil c.errs)
  errs-gather_all ((name, (found, none)) ∷ rs) c = errs-gather_all rs _
  errs-gather_all ((name, (found, some e)) ∷ rs) c =
      errs-gather_all rs _ ∙ append_assoc c.errs _ (failures rs)

  -- The set that `Collect` has at its end.
  collected : List (Source World) → World → RouteSet
  collected sources w = (gather_all (answers sources w) (new_collector World)).set

  collected-IsValid : (sources : List (Source World)) (w : World) → IsValid (collected sources w)
  unfolding collected
  collected-IsValid sources w =
      gather_all-IsValid (answers sources w) (new_collector World) new_set-IsValid

  collect-collected :
      (sources : List (Source World)) (w : World)
      → (collect World sources w).0.0 ≡ sorted (collected sources w)
  unfolding collect collected
  collect-collected sources w =
      ap (λ (c : Collector World). sorted c.set)
        (collect_all-answers sources (new_collector World) w)

  contains-collected :
      (sources : List (Source World)) (w : World) (p : Prefix)
      → contains (collected sources w).items p ≡ offered (answers sources w) p
  unfolding collected
  contains-collected sources w p =
      contains-gather_all (answers sources w) (new_collector World) p new_set-IsValid ∙ ground arith

  -- `Collect` returns a prefix exactly if a source that does not fail has it.
  pub contains-collect :
      (sources : List (Source World)) (w : World) (p : Prefix)
      → contains (collect World sources w).0.0 p ≡ offered (answers sources w) p
  contains-collect sources w p =
      ap (λ l. contains l p) (collect-collected sources w)
      ∙ (contains-sorted (collected sources w) p ∙ contains-collected sources w p)

  -- The error of `Collect` joins the errors of the sources that fail, in their order, each with the
  -- name of its source; there is none if no source fails.
  pub error-collect :
      (sources : List (Source World)) (w : World)
      → (collect World sources w).0.1 ≡ join (failures (answers sources w))
  unfolding collect
  error-collect sources w = ap join (
      ap (λ (c : Collector World). c.errs) (collect_all-answers sources (new_collector World) w)
      ∙ errs-gather_all (answers sources w) (new_collector World))

  -- What `Collect` returns stands in ascending order, none twice.
  pub collect-Ascending :
      (sources : List (Source World)) (w : World) → Ascending less (collect World sources w).0.0
  collect-Ascending sources w =
      rw (collect-collected sources w)
        (sorted-Ascending (collected sources w) (collected-IsValid sources w))

  -- Two lists of sources whose successful answers hold the same prefixes are collected into the same
  -- list, however the prefixes are spread over the sources.
  pub collect_invariant :
      (sources others : List (Source World)) (w v : World)
      → ((p : Prefix) → offered (answers sources w) p ≡ offered (answers others v) p)
      → (collect World sources w).0.0 ≡ (collect World others v).0.0
  collect_invariant sources others w v h =
      collect-collected sources w
      ∙ (sorted_unique (collected sources w) (collected others v) (collected-IsValid sources w)
            (collected-IsValid others v)
            (λ p. contains-collected sources w p ∙ (h p ∙ sym (contains-collected others v p)))
          ∙ sym (collect-collected others v))

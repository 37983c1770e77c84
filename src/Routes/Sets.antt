-- ===== src/Routes/Sets.antt =====
-- internal/routes/routes.go: the well-formedness of `Set`, and its members.
use cloud_route_manager.Base.{
  ◌≡◌, refl, ◌∙◌, sym, false, ◌||◌, List, [], ◌∷◌, ◌++◌, arith, ◌==◌, length, contains,
  contains-append, Distinct, SameMembers, length-append, Bool-cases, inl, inr, All, All-append,
}
use cloud_route_manager.Base.Sorting.{
  Ascending, sort_by-Ascending, contains-sort_by, length-sort_by, Ascending-unique,
}
use cloud_route_manager.Netip.{Prefix, prefix_eq}
use cloud_route_manager.Routes.{RouteSet, new_set, add, add_all, len, less, sorted}
use cloud_route_manager.Routes.Order.{less-StrictOrder}

pub record IsValid (s : RouteSet) : Type 0 where
  pub once : Distinct s.items
  pub same : SameMembers s.seen s.items
  pub size : length s.seen ≡ length s.items

Distinct-snoc :
    (xs : List Prefix) (p : Prefix) → contains xs p ≡ false → Distinct xs → Distinct (xs ++ p ∷ [])
Distinct-snoc [] p n h = (refl, tt)
Distinct-snoc (x ∷ xs) p n h =
    (ground (arith, contains-append xs (p ∷ []) x), Distinct-snoc xs p (ground arith) h.1)

pub new_set-IsValid : IsValid new_set
new_set-IsValid = record { once = tt; same = λ a. refl; size = refl }

-- `Add` keeps the set well formed: no item stands twice, and the map has the same members and the
-- same size as the slice.
pub add-IsValid : (p : Prefix) (s : RouteSet) → IsValid s → IsValid (add p s).0
unfolding add
add-IsValid p s v = elim (Bool-cases (contains s.seen p)) [
  | inl e ↦ rw e v
  | inr e ↦ rw e (record {
    once = Distinct-snoc s.items p (sym (v.same p) ∙ e) v.once;
    same = λ a. ground (arith, v.same a, contains-append s.items (p ∷ []) a);
    size = ground (arith, v.size, length-append s.items (p ∷ []));
  })
]

pub contains-add :
    (p : Prefix) (s : RouteSet) (a : Prefix)
    → IsValid s
    → contains (add p s).0.items a ≡ (p == a || contains s.items a)
unfolding add
contains-add p s a v = ground (arith, v.same p, contains-append s.items (p ∷ []) a)

pub add_all-IsValid : (ps : List Prefix) (s : RouteSet) → IsValid s → IsValid (add_all ps s)
unfolding add_all
add_all-IsValid [] s v = v
add_all-IsValid (p ∷ ps) s v = add_all-IsValid ps (add p s).0 (add-IsValid p s v)

-- `AddAll` adds the prefixes of its list, and no other.
pub contains-add_all :
    (ps : List Prefix) (s : RouteSet) (a : Prefix)
    → IsValid s
    → contains (add_all ps s).items a ≡ (contains ps a || contains s.items a)
unfolding add_all
contains-add_all [] s a v = refl
contains-add_all (p ∷ ps) s a v =
    ground (arith, contains-add_all ps (add p s).0 a (add-IsValid p s v), contains-add p s a v)

-- `Len` of a well-formed set counts the prefixes that `Sorted` returns.
pub len-length-sorted : (s : RouteSet) → IsValid s → len s ≡ length (sorted s)
unfolding len sorted
len-length-sorted s v = v.size ∙ sym (length-sort_by less s.items)

pub sorted-Ascending : (s : RouteSet) → IsValid s → Ascending less (sorted s)
unfolding sorted
sorted-Ascending s v = sort_by-Ascending less less-StrictOrder s.items v.once

pub contains-sorted : (s : RouteSet) → SameMembers (sorted s) s.items
unfolding sorted
contains-sorted s = contains-sort_by less s.items

-- Two well-formed sets with the same members are sorted into the same list, in whatever order they
-- were filled.
pub sorted_unique :
    (s t : RouteSet) → IsValid s → IsValid t → SameMembers s.items t.items → sorted s ≡ sorted t
sorted_unique s t v w h =
    Ascending-unique less less-StrictOrder (sorted s) (sorted t) (sorted-Ascending s v)
      (sorted-Ascending t w) (λ a. contains-sorted s a ∙ h a ∙ sym (contains-sorted t a))

module _ (P : Prefix → Type 0) where
  pub add-All : (p : Prefix) (s : RouteSet) → P p → All P s.items → All P (add p s).0.items
  unfolding add
  add-All p s c h = elim (Bool-cases (contains s.seen p)) [
    | inl e ↦ rw e h
    | inr e ↦ rw e (All-append P s.items (p ∷ []) h (c, tt))
  ]

  pub add_all-All :
      (ps : List Prefix) (s : RouteSet) → All P ps → All P s.items → All P (add_all ps s).items
  unfolding add_all
  add_all-All [] s c h = h
  add_all-All (p ∷ ps) s c h = add_all-All ps (add p s).0 c.1 (add-All p s c.0 h)

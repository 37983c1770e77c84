-- ===== src/Base/Sorting.antt =====
-- Go's `sort.Slice`, by insertion. Of distinct elements under a strict total order there is one
-- ascending list (`Ascending-unique`), so another sorting algorithm gives the same result.
use mathlib.Core.Path.{subst, sym, ap₂}
use package.cloud_route_manager.Base.{
  suc, ◌≡◌, ◌≢◌, refl, Bool, true, false, ◌||◌, List, [], ◌∷◌, arith, Eq, ◌==◌, if◌then◌else◌, All,
  contains, Distinct, SameMembers, All_of_contains, length, ◌∙◌, inl, inr, ap, Bool-cases,
}

pub record StrictOrder {ℓ} {A : Type ℓ} (less : A → A → Bool) : Type ℓ where
  pub irreflexive : (a : A) → less a a ≡ false
  pub transitive : (a b c : A) → less a b ≡ true → less b c ≡ true → less a c ≡ true
  pub total : (a b : A) → a ≢ b → less a b ≡ false → less b a ≡ true

module _ {ℓ} {A : Type ℓ} (less : A → A → Bool) where
  unfoldable pub insert_by : A → List A → List A
  insert_by x [] = x ∷ []
  insert_by x (y ∷ ys) = if less x y then x ∷ y ∷ ys else y ∷ insert_by x ys

  unfoldable pub sort_by : List A → List A
  unfolding insert_by
  sort_by [] = []
  sort_by (x ∷ xs) = insert_by x (sort_by xs)

  -- Each element is less than all behind it.
  abbrev pub Ascending : List A → Type 0
  Ascending [] = Unit
  Ascending (x ∷ xs) = All (λ y. less x y ≡ true) xs × Ascending xs

  module _ {κ} (P : A → Type κ) where
    insert_by-All : (x : A) (ys : List A) → P x → All P ys → All P (insert_by x ys)
    unfolding insert_by
    insert_by-All x [] p h = (p, tt)
    insert_by-All x (y ∷ ys) p h = elim (Bool-cases (less x y)) [
      | inl e ↦ rw e (p, h)
      | inr e ↦ rw e (h.0, insert_by-All x ys p h.1)
    ]

    pub sort_by-All : (xs : List A) → All P xs → All P (sort_by xs)
    unfolding sort_by
    sort_by-All [] h = tt
    sort_by-All (x ∷ xs) h = insert_by-All x (sort_by xs) h.0 (sort_by-All xs h.1)

  length-insert_by : (x : A) (ys : List A) → length (insert_by x ys) ≡ suc (length ys)
  unfolding insert_by
  length-insert_by x [] = refl
  length-insert_by x (y ∷ ys) = ground (arith, length-insert_by x ys)

  pub length-sort_by : (xs : List A) → length (sort_by xs) ≡ length xs
  unfolding sort_by
  length-sort_by [] = refl
  length-sort_by (x ∷ xs) = ground (arith, length-insert_by x (sort_by xs), length-sort_by xs)

module _ {ℓ} {A : Type ℓ} ⦃e : Eq A⦄ (less : A → A → Bool) where
  contains-insert_by :
      (x : A) (ys : List A) (a : A) → contains (insert_by less x ys) a ≡ (x == a || contains ys a)
  unfolding insert_by
  contains-insert_by x [] a = refl
  contains-insert_by x (y ∷ ys) a = ground (arith, contains-insert_by x ys a)

  pub contains-sort_by : (xs : List A) → SameMembers (sort_by less xs) xs
  unfolding sort_by
  contains-sort_by [] a = refl
  contains-sort_by (x ∷ xs) a =
      ground (arith, contains-insert_by x (sort_by less xs) a, contains-sort_by xs a)

module _ {ℓ} {A : Type ℓ} ⦃e : Eq A⦄ (less : A → A → Bool) (o : StrictOrder less) where
  All-weaken :
      (x y : A) (ys : List A)
      → less x y ≡ true
      → All (λ z. less y z ≡ true) ys
      → All (λ z. less x z ≡ true) ys
  All-weaken x y [] l h = tt
  All-weaken x y (z ∷ ys) l h = (o.transitive x y z l h.0, All-weaken x y ys l h.1)

  insert_by-Ascending :
      (x : A) (ys : List A)
      → contains ys x ≡ false
      → Ascending less ys
      → Ascending less (insert_by less x ys)
  unfolding insert_by
  insert_by-Ascending x [] n h = (tt, tt)
  insert_by-Ascending x (y ∷ ys) n h = elim (Bool-cases (less x y)) [
    | inl l ↦ rw l ((l, All-weaken x y ys l h.0), h)
    | inr l ↦ rw l (
      insert_by-All less (λ z. less y z ≡ true) x ys (o.total x y (λ p. absurd (ground arith)) l)
          h.0,
      insert_by-Ascending x ys (ground arith) h.1,
    )
  ]

  pub sort_by-Ascending : (xs : List A) → Distinct xs → Ascending less (sort_by less xs)
  unfolding sort_by
  sort_by-Ascending [] h = tt
  sort_by-Ascending (x ∷ xs) h =
      insert_by-Ascending x (sort_by less xs) (contains-sort_by less xs x ∙ h.0)
        (sort_by-Ascending xs h.1)

  -- The head of an ascending list does not stand behind it.
  head-fresh : (x : A) (xs : List A) → Ascending less (x ∷ xs) → contains xs x ≡ false
  head-fresh x xs h = elim (Bool-cases (contains xs x)) [
    | inl m ↦ cc (All_of_contains (λ z. less x z ≡ true) xs x h.0 m, o.irreflexive x)
    | inr m ↦ m
  ]

  -- A head that differs from another list's, and is in that list, is greater than its head.
  head-less :
      (x y : A) (ys : List A)
      → Ascending less (y ∷ ys)
      → x ≢ y
      → contains (y ∷ ys) x ≡ true
      → less y x ≡ true
  head-less x y ys h n m = All_of_contains (λ z. less y z ≡ true) ys x h.0 (ground arith)

  heads-eq :
      (x y : A) (xs ys : List A)
      → Ascending less (x ∷ xs)
      → Ascending less (y ∷ ys)
      → SameMembers (x ∷ xs) (y ∷ ys)
      → x ≡ y
  heads-eq x y xs ys h k s = elim (e.dec x y) [
    | yes p ↦ p
    | no n ↦
        let above = head-less x y ys k n (ground (arith, s x)) in
        let below = head-less y x xs h (λ p. n (sym p)) (ground (arith, s y)) in
        cc (o.transitive x y x below above, o.irreflexive x)
  ]

  tails-SameMembers :
      (x : A) (xs ys : List A)
      → Ascending less (x ∷ xs)
      → Ascending less (x ∷ ys)
      → SameMembers (x ∷ xs) (x ∷ ys)
      → SameMembers xs ys
  tails-SameMembers x xs ys h k s a =
      ground (arith, s a, head-fresh x xs h, head-fresh x ys k, ap (contains xs), ap (contains ys))

  -- Two ascending lists with the same members are one list.
  pub Ascending-unique :
      (xs ys : List A) → Ascending less xs → Ascending less ys → SameMembers xs ys → xs ≡ ys
  Ascending-unique [] [] h k s = refl
  Ascending-unique [] (y ∷ ys) h k s = absurd (ground (arith, s y))
  Ascending-unique (x ∷ xs) [] h k s = absurd (ground (arith, s x))
  Ascending-unique (x ∷ xs) (y ∷ ys) h k s =
      let p = heads-eq x y xs ys h k s in
      let k' = subst (λ z. Ascending less (z ∷ ys)) (sym p) k in
      let s' = subst (λ z. SameMembers (x ∷ xs) (z ∷ ys)) (sym p) s in
      ap₂ ◌∷◌ p (Ascending-unique xs ys h.1 k'.1 (tails-SameMembers x xs ys h k' s'))

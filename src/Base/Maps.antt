-- ===== src/Base/Maps.antt =====
-- Go's maps, as lists of pairs with distinct keys. The laws are stated by `lookup`.
use package.cloud_route_manager.Base.{
  ◌≡◌, refl, List, [], ◌∷◌, Option, none, some, arith, Eq, ◌==◌, ==_iff, if◌then◌else◌, Bool-cases,
  inl, inr, All, subst,
}

abbrev pub Map {ℓ κ} : Type ℓ → Type κ → Type (ℓ ⊔ κ)
Map K V = List (K × V)

abbrev pub keys {ℓ κ} : {K : Type ℓ} {V : Type κ} → Map K V → List K
keys [] = []
keys ((k, v) ∷ m) = k ∷ keys m

module _ {ℓ κ} {K : Type ℓ} {V : Type κ} ⦃e : Eq K⦄ where
  -- `v, ok := m[k]`
  unfoldable pub lookup : K → Map K V → Option V
  lookup k [] = none
  lookup k ((j, v) ∷ m) = if j == k then some v else lookup k m

  -- `m[k] = v`
  unfoldable pub insert : K → V → Map K V → Map K V
  insert k v [] = (k, v) ∷ []
  insert k v ((j, w) ∷ m) = if j == k then (k, v) ∷ m else (j, w) ∷ insert k v m

  -- `delete(m, k)`. Every entry of the key goes; a Go map has at most one.
  unfoldable pub erase : K → Map K V → Map K V
  erase k [] = []
  erase k ((j, w) ∷ m) = let rest = erase k m in if j == k then rest else (j, w) ∷ rest

  pub lookup-insert :
      (k j : K) (v : V) (m : Map K V)
      → lookup j (insert k v m) ≡ (if k == j then some v else lookup j m)
  unfolding lookup insert
  lookup-insert k j v [] = refl
  lookup-insert k j v (_ ∷ m) = ground (arith, lookup-insert k j v m)

  pub lookup-erase :
      (k j : K) (m : Map K V) → lookup j (erase k m) ≡ (if k == j then none else lookup j m)
  unfolding lookup erase
  lookup-erase k j [] = ground arith
  lookup-erase k j (_ ∷ m) = ground (arith, lookup-erase k j m)

  pub lookup-nil : (k : K) → lookup k [] ≡ none
  unfolding lookup
  lookup-nil k = refl

  pub lookup-All {ι} :
      (P : K → V → Type ι) (k : K) (m : Map K V) (v : V)
      → All (λ p. P p.0 p.1) m
      → lookup k m ≡ some v
      → P k v
  unfolding lookup
  lookup-All P k [] v h l = cc l
  lookup-All P k ((j, w) ∷ m) v (h, hs) l = elim (Bool-cases (j == k)) [
    | inl t ↦
        let q : w ≡ v = ground (arith, t, l) in
        let q' : j ≡ k = (==_iff j k).0 t in subst (λ x. P x v) q' (subst (P j) q h)
    | inr t ↦ lookup-All P k m v hs (ground (arith, t, l))
  ]

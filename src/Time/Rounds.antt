-- ===== src/Time/Rounds.antt =====
-- The rounds of `time.ParseDuration`: how much of the text each one takes.
use cloud_route_manager.Base.{
  ◌≡◌, refl, ap, ℕ, zero, suc, ◌+◌, ◌-◌, ◌*◌, ◌%◌, ◌^◌, ◌≤◌, ◌<◌, arith, Text, Bool, true, false,
  inl, inr, [], ◌∷◌, Option, none, some, Option-cases, length,
}
use cloud_route_manager.Base.Maps.{lookup}
use cloud_route_manager.Time.{
  leading_int, leading_fraction, Fraction, split_unit, after_dot, unit_map, after_fraction,
  after_int, with_unit, piece, pieces,
}

leading_int-length :
    (s : Text) (x v : ℕ) (r : Text) → leading_int s x ≡ some (v, r) → length r ≤ length s
unfolding leading_int
leading_int-length [] x v r h = ground arith
leading_int-length (c ∷ s) x v r h = ground (arith, leading_int-length s (x * 10 + (c - b'0')) v r)

leading_fraction-length :
    (s : Text) (x k : ℕ) (over : Bool) → length ((leading_fraction s x k over).rest) ≤ length s
unfolding leading_fraction
leading_fraction-length [] x k over = omega arith
leading_fraction-length (c ∷ s) x k over = ground (
  arith,
  leading_fraction-length s x k true,
  leading_fraction-length s (x * 10 + (c - b'0')) (k + 1) false,
)

after_dot-length : (s : Text) → length ((after_dot s).rest) ≤ length s
unfolding after_dot
after_dot-length [] = omega arith
after_dot-length (c ∷ s) = ground (arith, leading_fraction-length s 0 0 false)

-- The unit and the rest are the text.
split_unit-length : (s : Text) → length ((split_unit s).0) + length ((split_unit s).1) ≡ length s
unfolding split_unit
split_unit-length [] = refl
split_unit-length (c ∷ s) = ground (arith, split_unit-length s)

module _ (float_product : ℕ → ℕ → ℕ → ℕ) where
  with_unit-rest :
      (v : ℕ) (f : Fraction) (r r' : Text) (o : Option ℕ) (a : ℕ)
      → with_unit float_product v f r o ≡ some (a, r')
      → r ≡ r'
  with_unit-rest v f r r' none a h = cc h
  with_unit-rest v f r r' (some unit) a h = ground (arith, h)

  after_fraction-length :
      (v : ℕ) (f : Fraction) (split : Text × Text) (a : ℕ) (r : Text)
      → after_fraction float_product v f split ≡ some (a, r)
      → length r < length split.0 + length split.1
  after_fraction-length v f ([], t) a r h = cc h
  after_fraction-length v f (c ∷ u, t) a r h =
      omega (arith, ap length (with_unit-rest v f t r (lookup (c ∷ u) unit_map) a h))

  after_int-length :
      (s : Text) (o : Option (ℕ × Text)) (a : ℕ) (r : Text)
      → ((v : ℕ) (t : Text) → o ≡ some (v, t) → length t ≤ length s)
      → after_int float_product s o ≡ some (a, r)
      → length r < length s
  after_int-length s none a r h k = cc k
  after_int-length s (some (v, t)) a r h k = ground (
    arith,
    h v t refl,
    after_dot-length t,
    after_fraction-length v (after_dot t) (split_unit ((after_dot t).rest)) a r,
    split_unit-length ((after_dot t).rest),
  )

  piece-length :
      (s : Text) (a : ℕ) (r : Text) → piece float_product s ≡ some (a, r) → length r < length s
  unfolding piece
  piece-length s a r h =
      ground (arith, after_int-length s (leading_int s 0) a r (leading_int-length s 0))

  -- The loop takes no more rounds than the text has characters.
  pieces-fuels :
      (f g : ℕ) (s : Text) (d : ℕ)
      → length s ≤ f
      → length s ≤ g
      → pieces float_product f s d ≡ pieces float_product g s d
  unfolding pieces
  pieces-fuels f g [] d h k = refl
  pieces-fuels zero g (c ∷ s) d h k = absurd (omega arith)
  pieces-fuels (suc f) zero (c ∷ s) d h k = absurd (omega arith)
  pieces-fuels (suc f) (suc g) (c ∷ s) d h k = elim (Option-cases (piece float_product (c ∷ s))) [
    | inl e ↦ rw (pieces, e) refl
    | inr ((v, r), e) ↦
        let l : length r < length (c ∷ s) = piece-length (c ∷ s) v r e in
        let ih = pieces-fuels f g r ((d + v) % 2 ^ 64) (omega arith) (omega arith) in
        rw (pieces, e, ih) refl
  ]

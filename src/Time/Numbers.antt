-- ===== src/Time/Numbers.antt =====
-- What `time.ParseDuration` and `fmt.Sscanf` make of a decimal number with a text behind it.
use cloud_route_manager.Base.{
  ◌≡◌, refl, ap, sym, ◌∙◌, ℕ, zero, suc, ◌+◌, ◌-◌, ◌*◌, ◌/◌, ◌%◌, ◌^◌, ◌≤◌, ◌<◌, arith, Text, true,
  false, ◌⊎◌, inl, inr, [], ◌∷◌, ◌++◌, none, some, Bool-cases, length, length-append, ◌=ℕ◌, ◌==◌,
  codes, text_eq, ==_iff, All,
}
use native.Mathlib.Nat.{le-div_iff_mul-le, le-mul_of_pos_right}
use cloud_route_manager.Base.Decimal.{is_digit, digit, itoa, itoa-digits, itoa-length, itoa-read}
use cloud_route_manager.Base.Maps.{lookup, lookup-All}
use cloud_route_manager.Time.{
  nanoseconds, leading_int, split_unit, after_dot, unit_map, Fraction, piece, pieces, unsigned,
  parse_duration, scan_digits, scan_int, in_range, after_int, after_fraction,
}

-- A character that `ParseDuration` takes into a unit.
abbrev pub IsUnitChar : ℕ → Type 0
IsUnitChar c = (is_digit c ≡ false) × ((c =ℕ b'.') ≡ false)

leading_int-digits :
    (ds tail : Text) (x : ℕ)
    → All (λ c. is_digit c ≡ true) ds
    → All IsUnitChar tail
    → (leading_int (ds ++ tail) x ≡ none)
      ⊎ ((y : ℕ) × (leading_int (ds ++ tail) x ≡ some (y, tail)))
unfolding leading_int
leading_int-digits [] [] x h k = inr (x, refl)
leading_int-digits [] (c ∷ s) x h (k, ks) = inr (x, ground (arith, k))
leading_int-digits (c ∷ ds) tail x (h, hs) k =
    ground (arith, leading_int-digits ds tail (x * 10 + (c - b'0')) hs k)

leading_int-digit :
    (d acc : ℕ) (s : Text)
    → d < 10
    → acc * 10 + d ≤ 2 ^ 63
    → leading_int (digit d ∷ s) acc ≡ leading_int s (acc * 10 + d)
unfolding leading_int
leading_int-digit d acc s h k = ground arith

leading_int-itoa :
    (n : ℕ) (tail : Text) → n ≤ 2 ^ 63 → leading_int (itoa n ++ tail) 0 ≡ leading_int tail n
leading_int-itoa n tail h = itoa-read (2 ^ 63) leading_int leading_int-digit n tail h

leading_int-unit : (tail : Text) (n : ℕ) → All IsUnitChar tail → leading_int tail n ≡ some (n, tail)
unfolding leading_int
leading_int-unit [] n h = refl
leading_int-unit (c ∷ s) n (h, hs) = ground (arith, h)

split_unit-whole : (s : Text) → All IsUnitChar s → split_unit s ≡ (s, [])
unfolding split_unit
split_unit-whole [] h = refl
split_unit-whole (c ∷ s) ((h, h'), hs) = rw (h, h', split_unit-whole s hs) refl

after_dot-none :
    (s : Text) → All IsUnitChar s → after_dot s ≡ record { value = 0; digits = 0; rest = s }
unfolding after_dot
after_dot-none [] h = refl
after_dot-none (c ∷ s) ((h, h'), hs) = rw (h') refl

scan_digits-digit :
    (d acc : ℕ) (s : Text) → d < 10 → scan_digits (digit d ∷ s) acc ≡ scan_digits s (acc * 10 + d)
unfolding scan_digits
scan_digits-digit d acc s h = ground arith

scan_digits-unit : (tail : Text) (n : ℕ) → All IsUnitChar tail → scan_digits tail n ≡ n
unfolding scan_digits
scan_digits-unit [] n h = refl
scan_digits-unit (c ∷ s) n (h, hs) = ground (arith, h)

scan_digits-itoa : (n : ℕ) (tail : Text) → All IsUnitChar tail → scan_digits (itoa n ++ tail) 0 ≡ n
scan_digits-itoa n tail h =
    itoa-read n scan_digits (λ d acc s k l. scan_digits-digit d acc s k) n tail (omega arith)
    ∙ scan_digits-unit tail n h

scan_digits-zero : scan_digits (codes "0") 0 ≡ 0
unfolding scan_digits
scan_digits-zero = refl

scan_int-digits :
    (ds tail : Text)
    → 1 ≤ length ds
    → All (λ c. is_digit c ≡ true) ds
    → scan_int (ds ++ tail) ≡ in_range false (scan_digits (ds ++ tail) 0)
unfolding scan_int
scan_int-digits [] tail h k = absurd (omega arith)
scan_int-digits (c ∷ ds) tail h (k, ks) = ground (arith, k)

pub scan_int-itoa :
    (n : ℕ) (tail : Text)
    → All IsUnitChar tail
    → n < 2 ^ 63
    → scan_int (itoa n ++ tail) ≡ some (nanoseconds n)
scan_int-itoa n tail h l =
    scan_int-digits (itoa n) tail (itoa-length n) (itoa-digits n)
    ∙ rw (scan_digits-itoa n tail h) (ground (arith, l))

unit_map-positive : (name : Text) (unit : ℕ) → lookup name unit_map ≡ some unit → 1 ≤ unit
unfolding unit_map
unit_map-positive name unit h = lookup-All (λ k v. 1 ≤ v) name unit_map unit (ground arith) h

unit_map-filled : (name : Text) (unit : ℕ) → lookup name unit_map ≡ some unit → 1 ≤ length name
unfolding unit_map
unit_map-filled name unit h = lookup-All (λ k v. 1 ≤ length k) name unit_map unit (ground arith) h

module _ (float_product : ℕ → ℕ → ℕ → ℕ) where
  unknown_unit :
      (v : ℕ) (f : Fraction) (tail : Text)
      → lookup tail unit_map ≡ none
      → after_fraction float_product v f (tail, []) ≡ none
  unknown_unit v f [] h = refl
  unknown_unit v f (c ∷ s) h = rw (h) refl

  after_int-none :
      (s tail : Text) (v : ℕ)
      → All IsUnitChar tail
      → lookup tail unit_map ≡ none
      → after_int float_product s (some (v, tail)) ≡ none
  after_int-none s tail v h u =
      let e =
        ap (after_fraction float_product v (after_dot tail))
          (ap (λ f. split_unit (f.rest)) (after_dot-none tail h) ∙ split_unit-whole tail h) in
      let e' = unknown_unit v (after_dot tail) tail u in ground (arith, e, e')

  piece-none :
      (ds tail : Text)
      → All (λ c. is_digit c ≡ true) ds
      → All IsUnitChar tail
      → lookup tail unit_map ≡ none
      → piece float_product (ds ++ tail) ≡ none
  unfolding piece
  piece-none ds tail h k u = elim (leading_int-digits ds tail 0 h k) [
    | inl e ↦ ground (arith, e)
    | inr (y, e) ↦ ground (arith, e, after_int-none (ds ++ tail) tail y k u)
  ]

  pieces-none :
      (fuel : ℕ) (s : Text) (d : ℕ)
      → 1 ≤ length s
      → piece float_product s ≡ none
      → pieces float_product fuel s d ≡ none
  unfolding pieces
  pieces-none fuel [] d h k = absurd (omega arith)
  pieces-none zero (c ∷ s) d h k = refl
  pieces-none (suc fuel) (c ∷ s) d h k = rw (pieces, k) refl

  unsigned-other :
      (s : Text)
      → piece float_product s ≡ none
      → (s == codes "0") ≡ false
      → unsigned float_product false s ≡ none
  unfolding unsigned text_eq
  unsigned-other [] h e = refl
  unsigned-other (c ∷ t) h e = rw (e, pieces-none (length (c ∷ t)) (c ∷ t) 0 (omega arith) h) refl

  unsigned-cases :
      (s : Text)
      → piece float_product s ≡ none
      → (unsigned float_product false s ≡ none)
        ⊎ ((s ≡ codes "0") × (unsigned float_product false s ≡ some (nanoseconds 0)))
  unfolding unsigned
  unsigned-cases s h = elim (Bool-cases (s == codes "0")) [
    | inl e ↦ inr ((==_iff s (codes "0")).0 e, rw (e) refl)
    | inr e ↦ inl (unsigned-other s h e)
  ]

  parse_duration-unsigned :
      (ds tail : Text)
      → 1 ≤ length ds
      → All (λ c. is_digit c ≡ true) ds
      → parse_duration float_product (ds ++ tail) ≡ unsigned float_product false (ds ++ tail)
  unfolding parse_duration
  parse_duration-unsigned [] tail h k = absurd (omega arith)
  parse_duration-unsigned (c ∷ ds) tail h (k, ks) = ground (arith, k)

  -- A number with no unit behind it is not a duration, but for `0`.
  pub parse_duration-unknown :
      (n : ℕ) (tail : Text)
      → All IsUnitChar tail
      → lookup tail unit_map ≡ none
      → (parse_duration float_product (itoa n ++ tail) ≡ none)
        ⊎ ((n ≡ 0) × (parse_duration float_product (itoa n ++ tail) ≡ some (nanoseconds 0)))
  parse_duration-unknown n tail h u =
      let e = parse_duration-unsigned (itoa n) tail (itoa-length n) (itoa-digits n) in
      elim (unsigned-cases (itoa n ++ tail) (piece-none (itoa n) tail (itoa-digits n) h u)) [
        | inl k ↦ inl (e ∙ k)
        | inr (z, k) ↦ inr (
          sym (scan_digits-itoa n tail h) ∙ (ap (λ s. scan_digits s 0) z ∙ scan_digits-zero),
          e ∙ k,
        )
      ]

  after_int-unit :
      (s name : Text) (n unit : ℕ)
      → All IsUnitChar name
      → lookup name unit_map ≡ some unit
      → n * unit ≤ 2 ^ 63
      → length name < length s
      → after_int float_product s (some (n, name)) ≡ some (n * unit, [])
  after_int-unit s [] n unit h u l k = absurd (omega (arith, unit_map-filled [] unit u))
  after_int-unit s (c ∷ name) n unit h u l k =
      let m : n ≤ 2 ^ 63 / unit = (le-div_iff_mul-le (unit_map-positive (c ∷ name) unit u)).1 l in
      let e = after_dot-none (c ∷ name) h in
      let e' = split_unit-whole (c ∷ name) h in rw (e, e', u) (ground (arith, m))

  piece-unit :
      (ds name : Text) (n unit : ℕ)
      → 1 ≤ length ds
      → All (λ c. is_digit c ≡ true) ds
      → leading_int (ds ++ name) 0 ≡ some (n, name)
      → All IsUnitChar name
      → lookup name unit_map ≡ some unit
      → n * unit ≤ 2 ^ 63
      → piece float_product (ds ++ name) ≡ some (n * unit, [])
  unfolding piece
  piece-unit [] name n unit k ks e h u l = absurd (omega arith)
  piece-unit (c ∷ ds) name n unit k (d, ds') e h u l =
      let a =
        after_int-unit (c ∷ ds ++ name) name n unit h u l (omega (arith, length-append ds name)) in
      ground (arith, d, e, a)

  pieces-unit :
      (fuel : ℕ) (s : Text) (v : ℕ)
      → 1 ≤ length s
      → 1 ≤ fuel
      → v ≤ 2 ^ 63
      → piece float_product s ≡ some (v, [])
      → pieces float_product fuel s 0 ≡ some v
  unfolding pieces
  pieces-unit fuel [] v h k l e = absurd (omega arith)
  pieces-unit zero (c ∷ s) v h k l e = absurd (omega arith)
  pieces-unit (suc fuel) (c ∷ s) v h k l e =
      let m : (0 + v) % 2 ^ 64 ≡ v = omega arith in rw (pieces, e, m) (ground (arith, l))

  parse_pieces :
      (s : Text) (v : ℕ)
      → 2 ≤ length s
      → v < 2 ^ 63
      → pieces float_product (length s) s 0 ≡ some v
      → unsigned float_product false s ≡ some (nanoseconds v)
  unfolding unsigned text_eq
  parse_pieces [] v h l e = absurd (omega arith)
  parse_pieces (c ∷ []) v h l e = absurd (omega arith)
  parse_pieces (c ∷ d ∷ s) v h l e = elim (Bool-cases ((c ∷ d ∷ s) == codes "0")) [
    | inl t ↦ absurd (omega (arith, ap length ((==_iff (c ∷ d ∷ s) (codes "0")).0 t)))
    | inr t ↦ rw (e, t) (ground (arith, l))
  ]

  -- A number with its unit is read exactly, up to the longest duration.
  pub parse_duration-unit :
      (n : ℕ) (name : Text) (unit : ℕ)
      → All IsUnitChar name
      → lookup name unit_map ≡ some unit
      → n * unit < 2 ^ 63
      → parse_duration float_product (itoa n ++ name) ≡ some (nanoseconds (n * unit))
  parse_duration-unit n name unit h u l =
      let p = unit_map-positive name unit u in
      let f = unit_map-filled name unit u in
      let t : length (itoa n ++ name) ≡ length (itoa n) + length name =
        length-append (itoa n) name in
      let i = itoa-length n in
      let b : n ≤ 2 ^ 63 = omega (arith, le-mul_of_pos_right n p) in
      let r =
        piece-unit (itoa n) name n unit i (itoa-digits n)
          (leading_int-itoa n name b ∙ leading_int-unit name n h) h u (omega arith) in
      parse_duration-unsigned (itoa n) name i (itoa-digits n)
      ∙ parse_pieces (itoa n ++ name) (n * unit) (omega arith) l (
          pieces-unit (length (itoa n ++ name)) (itoa n ++ name) (n * unit) (omega arith)
            (omega arith) (omega arith) r)

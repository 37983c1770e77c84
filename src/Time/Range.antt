-- ===== src/Time/Range.antt =====
-- The range of durations: 64 bits with a sign.
use cloud_route_manager.Base.{
  ◌≡◌, ℕ, ◌-◌, ◌*◌, ◌%◌, ◌^◌, ◌≤◌, ◌<◌, arith, Text, Bool, true, false, codes, ◌==◌, ◌=ℕ◌, ◌||◌, [],
  ◌∷◌, Option, none, some, ltb, Bool-cases, inl, inr, subst, text_eq, length,
}
use cloud_route_manager.Time.{
  Duration, nanoseconds, negative, wrapped, times, pieces, with_sign, unsigned, parse_duration,
}

-- The integers of 64 bits; zero is not `negative`.
abbrev pub Fits : Duration → Type 0
Fits (negative n) = (1 ≤ n) × (n ≤ 2 ^ 63)
Fits (nanoseconds n) = n < 2 ^ 63

wrapped-Fits : (n : ℕ) → Fits (wrapped n)
wrapped-Fits n = elim (Bool-cases (ltb (n % 2 ^ 64) (2 ^ 63))) [
  | inl e ↦ rw (e) (ground (arith, e))
  | inr e ↦ rw (e) (ground (arith, e))
]

pub times-Fits : (d : Duration) (k : ℕ) → Fits (times d k)
times-Fits (negative n) k = wrapped-Fits (2 ^ 64 - n * k % 2 ^ 64)
times-Fits (nanoseconds n) k = wrapped-Fits (n * k)

module _ (float_product : ℕ → ℕ → ℕ → ℕ) where
  with_sign-Fits :
      (neg : Bool) (o : Option ℕ) (d : Duration) → with_sign float_product neg o ≡ some d → Fits d
  with_sign-Fits neg none d h = cc h
  with_sign-Fits true (some n) d h =
      subst Fits (ground (arith, h)) (wrapped-Fits (2 ^ 64 - n % 2 ^ 64))
  with_sign-Fits false (some n) d h = elim (Bool-cases (ltb (2 ^ 63 - 1) n)) [
    | inl e ↦ absurd (ground (arith, e, h))
    | inr e ↦
        let q : nanoseconds n ≡ d = ground (arith, e, h) in
        let l : n < 2 ^ 63 = ground (arith, e) in subst Fits q l
  ]

  unsigned-Fits :
      (neg : Bool) (s : Text) (d : Duration) → unsigned float_product neg s ≡ some d → Fits d
  unfolding unsigned
  unsigned-Fits neg s d h = elim (Bool-cases (s == codes "0")) [
    | inl e ↦
        let q : nanoseconds 0 ≡ d = ground (arith, e, h) in
        let l : 0 < 2 ^ 63 = omega arith in subst Fits q l
    | inr e ↦ with_sign-Fits neg (pieces float_product (length s) s 0) d (ground (arith, e, h))
  ]

  pub parse_duration-Fits :
      (s : Text) (d : Duration) → parse_duration float_product s ≡ some d → Fits d
  unfolding parse_duration
  parse_duration-Fits [] d h = unsigned-Fits false [] d h
  parse_duration-Fits (c ∷ s) d h = elim (Bool-cases (c =ℕ b'-' || c =ℕ b'+')) [
    | inl e ↦ unsigned-Fits (c =ℕ b'-') s d (ground (arith, e, h))
    | inr e ↦ unsigned-Fits false (c ∷ s) d (ground (arith, e, h))
  ]

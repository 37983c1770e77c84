-- ===== src/Base/Decimal.antt =====
-- Go's `strconv.Itoa`, the %d of an `int` and the hexadecimal numbers of `netip`, and how a reader of
-- digits takes them.
use Prim.Native.Nat.{ℕ, zero, suc, ◌+◌, ◌-◌, ◌*◌, ◌/◌, ◌%◌, ◌≤◌, ◌<◌}
use mathlib.Core.Path.{◌≡◌, refl, ap, ◌∙◌}
use mathlib.Core.Logic.{inl, inr}
use mathlib.Core.Bool.{Bool, true, false, ◌&&◌}
use mathlib.Core.List.{[], ◌∷◌, ◌++◌}
use native.Mathlib.Omega.{arith}
use native.Mathlib.Nat.{zero-div, div-lt_self, div-add-mod', mod-lt, div-le_self}
use package.cloud_route_manager.Base.Tests.{Text, ◌=ℕ◌, ltb, leb, if◌then◌else◌, Bool-cases}
use package.cloud_route_manager.Base.Lists.{length, All}

abbrev pub digit : ℕ → ℕ
digit d = if ltb d 10 then b'0' + d else b'a' + (d - 10)

abbrev pub is_digit : ℕ → Bool
is_digit c = leb b'0' c && leb c b'9'

-- The digits of `n` before `out`. The fuel of `n + 1` rounds is enough, since `n / base < n`.
unfoldable pub emit : ℕ → ℕ → ℕ → Text → Text
emit base zero n out = out
emit base (suc fuel) n out =
    let rest = emit base fuel (n / base) (digit (n % base) ∷ out) in
    if n / base =ℕ 0 then digit (n % base) ∷ out else rest

unfoldable pub itoa : ℕ → Text
unfolding emit
itoa n = emit 10 (suc n) n []

-- An `int`: `negsuc n` is - n - 1.
pub data ℤ : Type 0 where
  pos : ℕ → ℤ
  negsuc : ℕ → ℤ

abbrev pub is_zero : ℤ → Bool
is_zero (pos n) = n =ℕ 0
is_zero (negsuc n) = false

-- The %d of an `int`.
abbrev pub int_string : ℤ → Text
int_string (pos n) = itoa n
int_string (negsuc n) = b'-' ∷ itoa (suc n)

unfoldable pub hex : ℕ → Text
unfolding emit
hex n = emit 16 (suc n) n []

div_lt : (base n f : ℕ) → 2 ≤ base → n < suc f → (n / base =ℕ 0) ≡ false → n / base < f
div_lt base zero f h k m = let z : zero / base ≡ 0 = zero-div base in ground (arith, z, m)
div_lt base (suc n) f h k m =
    omega (arith, div-lt_self {n = suc n} {k = base} (omega arith) (omega arith))

emit-append :
    (base f n : ℕ) (out rest : Text) → emit base f n out ++ rest ≡ emit base f n (out ++ rest)
unfolding emit
emit-append base zero n out rest = refl
emit-append base (suc f) n out rest = elim (Bool-cases (n / base =ℕ 0)) [
  | inl e ↦ rw (e, emit) refl
  | inr e ↦ rw (e, emit) (emit-append base f (n / base) (digit (n % base) ∷ out) rest)
]

-- A reader that takes a digit of a number up to its bound takes a whole number up to it.
pub emit-read {ℓ} :
    {R : Type ℓ} (base bound : ℕ) (read : Text → ℕ → R)
    → 2 ≤ base
    → ((d acc : ℕ) (s : Text)
        → d < base
        → acc * base + d ≤ bound
        → read (digit d ∷ s) acc ≡ read s (acc * base + d))
    → (f n : ℕ) (out : Text) → n < f
    → n ≤ bound
    → read (emit base f n out) 0 ≡ read out n
unfolding emit
emit-read base bound read b step zero n out h k = absurd (omega arith)
emit-read base bound read b step (suc f) n out h k = elim (Bool-cases (n / base =ℕ 0)) [
  | inl e ↦
      let q : n / base ≡ 0 = ground (arith, e) in
      let r : n % base ≡ n = omega (arith, div-add-mod' n base, ap (λ (t : ℕ). t * base) q) in
      rw (e, emit)
        (step (n % base) 0 out (mod-lt n (omega arith)) (omega (arith, r))
          ∙ ap (read out) (omega (arith, r)))
  | inr e ↦
      rw (e, emit)
        (emit-read base bound read b step f (n / base) (digit (n % base) ∷ out)
            (div_lt base n f b h e) (omega (arith, div-le_self n base))
          ∙ (step (n % base) (n / base) out (mod-lt n (omega arith))
                (omega (arith, div-add-mod' n base))
              ∙ ap (read out) (div-add-mod' n base)))
]

emit-All {κ} :
    (P : ℕ → Type κ) (base : ℕ)
    → 2 ≤ base
    → ((d : ℕ) → d < base → P (digit d))
    → (f n : ℕ) (out : Text) → All P out
    → All P (emit base f n out)
unfolding emit
emit-All P base b h zero n out ho = ho
emit-All P base b h (suc f) n out ho = elim (Bool-cases (n / base =ℕ 0)) [
  | inl e ↦ rw (e, emit) (h (n % base) (mod-lt n (omega arith)), ho)
  | inr e ↦
      rw (e, emit)
        (emit-All P base b h f (n / base) (digit (n % base) ∷ out)
          (h (n % base) (mod-lt n (omega arith)), ho))
]

-- A number is written with a digit at least.
emit-length : (base f n : ℕ) (out : Text) → length out ≤ length (emit base f n out)
unfolding emit
emit-length base zero n out = omega arith
emit-length base (suc f) n out = elim (Bool-cases (n / base =ℕ 0)) [
  | inl e ↦ rw (e, emit) (omega arith)
  | inr e ↦ rw (e, emit) (omega (arith, emit-length base f (n / base) (digit (n % base) ∷ out)))
]

pub is_digit-digit : (d : ℕ) → d < 10 → is_digit (digit d) ≡ true
is_digit-digit d h = ground arith

pub itoa-digits : (n : ℕ) → All (λ c. is_digit c ≡ true) (itoa n)
unfolding itoa
itoa-digits n = emit-All (λ c. is_digit c ≡ true) 10 (omega arith) is_digit-digit (suc n) n [] tt

pub itoa-length : (n : ℕ) → 1 ≤ length (itoa n)
unfolding itoa emit
itoa-length n = elim (Bool-cases (n / 10 =ℕ 0)) [
  | inl e ↦ rw (e, emit) (omega arith)
  | inr e ↦ rw (e, emit) (emit-length 10 n (n / 10) (digit (n % 10) ∷ []))
]

-- A reader of decimal digits takes a number in front of a rest.
pub itoa-read {ℓ} :
    {R : Type ℓ} (bound : ℕ) (read : Text → ℕ → R)
    → ((d acc : ℕ) (s : Text)
        → d < 10
        → acc * 10 + d ≤ bound
        → read (digit d ∷ s) acc ≡ read s (acc * 10 + d))
    → (n : ℕ) (rest : Text) → n ≤ bound
    → read (itoa n ++ rest) 0 ≡ read rest n
unfolding itoa
itoa-read bound read step n rest h =
    ap (λ s. read s 0) (emit-append 10 (suc n) n [] rest)
    ∙ emit-read 10 bound read (omega arith) step (suc n) n rest (omega arith) h

emit-last : (f n : ℕ) (out : Text) → n < 10 → emit 10 (suc f) n out ≡ digit n ∷ out
unfolding emit
emit-last f n out h =
    let q : (n / 10 =ℕ 0) ≡ true = ground (arith, h) in
    let r : n % 10 ≡ n = omega (arith, h) in rw (emit, q) (ap (λ d. digit d ∷ out) r)

emit-more :
    (f n : ℕ) (out : Text)
    → 10 ≤ n
    → emit 10 (suc f) n out ≡ emit 10 f (n / 10) (digit (n % 10) ∷ out)
unfolding emit
emit-more f n out h = let q : (n / 10 =ℕ 0) ≡ false = ground (arith, h) in rw (emit, q) refl

pub itoa-one : (n : ℕ) → n < 10 → itoa n ≡ digit n ∷ []
unfolding itoa
itoa-one n h = emit-last n n [] h

pub itoa-two : (n : ℕ) → 10 ≤ n → n < 100 → itoa n ≡ digit (n / 10) ∷ digit (n % 10) ∷ []
unfolding itoa
itoa-two zero h k = absurd (omega arith)
itoa-two (suc n) h k =
    emit-more (suc n) (suc n) [] h
    ∙ emit-last n (suc n / 10) (digit (suc n % 10) ∷ []) (omega (arith, k))

pub itoa-three :
    (n : ℕ)
    → 100 ≤ n
    → n < 1_000
    → itoa n ≡ digit (n / 10 / 10) ∷ digit (n / 10 % 10) ∷ digit (n % 10) ∷ []
unfolding itoa
itoa-three zero h k = absurd (omega arith)
itoa-three (suc zero) h k = absurd (omega arith)
itoa-three (suc (suc n)) h k =
    let m = suc (suc n) in
    emit-more m m [] (omega (arith, h))
    ∙ (emit-more (suc n) (m / 10) (digit (m % 10) ∷ []) (omega (arith, h))
        ∙ emit-last n (m / 10 / 10) (digit (m / 10 % 10) ∷ digit (m % 10) ∷ []) (omega (arith, k)))

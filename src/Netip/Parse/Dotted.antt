-- ===== src/Netip/Parse/Dotted.antt =====
-- How `netip` reads back the IPv4 addresses and the lengths that it prints.
use mathlib.Core.Option
use mathlib.Core.List.{append-nil}
use package.cloud_route_manager.Base.{
  ℕ, ◌+◌, ◌*◌, ◌/◌, ◌%◌, ◌^◌, ◌≤◌, ◌<◌, Text, ◌≡◌, refl, ap, sym, ◌∙◌, [], ◌∷◌, ◌++◌, some, true,
  false, ◌&&◌, arith, is_empty, All, length, ◌=ℕ◌, ltb, inl, inr, Bool-cases,
}
use package.cloud_route_manager.Base.Decimal.{
  is_digit, digit, itoa, itoa-one, itoa-two, itoa-three, itoa-length, itoa-read, itoa-digits,
}
use package.cloud_route_manager.Base.Strings.{join_texts}
use package.cloud_route_manager.Netip.Defs.{v4}
use package.cloud_route_manager.Netip.Print.{string_v4}
use package.cloud_route_manager.Netip.Parse.{
  parse_v4, parse_by, parse_addr, parse_digits, parse_bits,
}

parse_v4-digit :
    (a acc pos val k : ℕ) (s : Text)
    → a < 10
    → val * 10 + a ≤ 255
    → (k =ℕ 1 && val =ℕ 0) ≡ false
    → parse_v4 (digit a ∷ s) acc pos val k ≡ parse_v4 s acc pos (val * 10 + a) (k + 1)
unfolding parse_v4
parse_v4-digit a acc pos val k s h l m = ground (arith, h, l, m)

parse_v4-first :
    (a acc pos : ℕ) (s : Text)
    → a < 10
    → parse_v4 (digit a ∷ s) acc pos 0 0 ≡ parse_v4 s acc pos a 1
parse_v4-first a acc pos s h =
    parse_v4-digit a acc pos 0 0 s h (omega (arith, h)) refl
    ∙ ap (λ v. parse_v4 s acc pos v 1) (omega arith)

parse_v4-two :
    (a b n acc pos : ℕ) (s : Text)
    → 1 ≤ a
    → a < 10
    → b < 10
    → n ≤ 255
    → a * 10 + b ≡ n
    → parse_v4 (digit a ∷ digit b ∷ s) acc pos 0 0 ≡ parse_v4 s acc pos n 2
parse_v4-two a b n acc pos s h k l m e =
    parse_v4-first a acc pos (digit b ∷ s) k
    ∙ (parse_v4-digit b acc pos a 1 s l (omega (arith, m, e)) (ground (arith, h))
        ∙ ap (λ v. parse_v4 s acc pos v 2) e)

-- An octet, with the digits that it took.
parse_v4-octet :
    (d acc pos : ℕ) (s : Text)
    → d < 256
    → (k : ℕ) × (1 ≤ k) × (parse_v4 (itoa d ++ s) acc pos 0 0 ≡ parse_v4 s acc pos d k)
parse_v4-octet d acc pos s h = elim (Bool-cases (ltb d 10)) [
  | inl e ↦
      let l : d < 10 = ground (arith, e) in
      (
        1,
        omega arith,
        ap (λ t. parse_v4 (t ++ s) acc pos 0 0) (itoa-one d l) ∙ parse_v4-first d acc pos s l,
      )
  | inr e ↦ elim (Bool-cases (ltb d 100)) [
    | inl f ↦
        let l : 10 ≤ d = ground (arith, e) in
        let m : d < 100 = ground (arith, f) in
        (
          2,
          omega arith,
          ap (λ t. parse_v4 (t ++ s) acc pos 0 0) (itoa-two d l m)
              ∙ parse_v4-two (d / 10) (d % 10) d acc pos s (omega (arith, l)) (omega (arith, m))
                  (omega arith) (omega (arith, m)) (omega arith),
        )
    | inr f ↦
        let l : 100 ≤ d = ground (arith, f) in
        (
          3,
          omega arith,
          ap (λ t. parse_v4 (t ++ s) acc pos 0 0) (itoa-three d l (omega (arith, h)))
              ∙ (parse_v4-two (d / 10 / 10) (d / 10 % 10) (d / 10) acc pos (digit (d % 10) ∷ s)
                    (omega (arith, l)) (omega (arith, h)) (omega arith) (omega (arith, h))
                    (omega arith)
                  ∙ (parse_v4-digit (d % 10) acc pos (d / 10) 2 s (omega arith) (omega (arith, h))
                        refl
                      ∙ ap (λ v. parse_v4 s acc pos v 3) (omega arith))),
        )
  ]
]

parse_v4-dot :
    (s : Text) (acc pos val k : ℕ)
    → is_empty s ≡ false
    → 1 ≤ k
    → pos < 3
    → parse_v4 (b'.' ∷ s) acc pos val k ≡ parse_v4 s (acc * 256 + val) (pos + 1) 0 0
unfolding parse_v4
parse_v4-dot s acc pos val k e h l = ground (arith, e, h, l)

parse_v4-end : (acc val k : ℕ) → parse_v4 [] acc 3 val k ≡ some (acc * 256 + val)
unfolding parse_v4
parse_v4-end acc val k = refl

parse_v4-dotted :
    (d acc pos : ℕ) (s : Text)
    → d < 256
    → is_empty s ≡ false
    → pos < 3
    → parse_v4 (itoa d ++ (b'.' ∷ s)) acc pos 0 0 ≡ parse_v4 s (acc * 256 + d) (pos + 1) 0 0
parse_v4-dotted d acc pos s h e l =
    let (k, g, q) = parse_v4-octet d acc pos (b'.' ∷ s) h in q ∙ parse_v4-dot s acc pos d k e g l

parse_v4-last : (d acc : ℕ) → d < 256 → parse_v4 (itoa d) acc 3 0 0 ≡ some (acc * 256 + d)
parse_v4-last d acc h =
    let (k, g, q) = parse_v4-octet d acc 3 [] h in
    ap (λ t. parse_v4 t acc 3 0 0) (sym (append-nil (itoa d))) ∙ (q ∙ parse_v4-end acc d k)

filled : (s t : Text) → 1 ≤ length s → is_empty (s ++ t) ≡ false
filled [] t h = absurd (omega arith)
filled (c ∷ s) t h = refl

itoa-filled : (n : ℕ) → is_empty (itoa n) ≡ false
itoa-filled n = ap is_empty (sym (append-nil (itoa n))) ∙ filled (itoa n) [] (itoa-length n)

parse_v4-string_v4 : (n : ℕ) → n < 2 ^ 32 → parse_v4 (string_v4 n) 0 0 0 0 ≡ some n
unfolding string_v4 join_texts
parse_v4-string_v4 n h =
    let a = n / 2 ^ 24 in
    let b = n / 2 ^ 16 % 2 ^ 8 in
    let c = n / 2 ^ 8 % 2 ^ 8 in
    let d = n % 2 ^ 8 in
    parse_v4-dotted a 0 0 _ (omega (arith, h)) (filled (itoa b) _ (itoa-length b)) (omega arith)
    ∙ (parse_v4-dotted b (0 * 256 + a) 1 _ (omega arith) (filled (itoa c) _ (itoa-length c))
          (omega arith)
        ∙ (parse_v4-dotted c _ 2 _ (omega arith) (itoa-filled d) (omega arith)
            ∙ (parse_v4-last d _ (omega arith) ∙ ap (λ m. some m) (omega arith))))

parse_by-digits :
    (whole ds rest : Text)
    → All (λ c. is_digit c ≡ true) ds
    → parse_by whole (ds ++ (b'.' ∷ rest)) ≡ Option.map v4 (parse_v4 whole 0 0 0 0)
unfolding parse_by
parse_by-digits whole [] rest h = refl
parse_by-digits whole (c ∷ ds) rest (h, hs) = ground (arith, h, parse_by-digits whole ds rest hs)

-- An IPv4 address is read back.
pub parse_addr-v4 : (n : ℕ) → n < 2 ^ 32 → parse_addr (string_v4 n) ≡ some (v4 n)
unfolding parse_addr string_v4 join_texts Option.map
parse_addr-v4 n h =
    parse_by-digits (string_v4 n) (itoa (n / 2 ^ 24)) _ (itoa-digits (n / 2 ^ 24))
    ∙ ap (Option.map v4) (parse_v4-string_v4 n h)

parse_digits-digit :
    (d acc : ℕ) (s : Text) → d < 10 → parse_digits (digit d ∷ s) acc ≡ parse_digits s (acc * 10 + d)
unfolding parse_digits
parse_digits-digit d acc s h = ground (arith, h)

parse_digits-itoa : (n : ℕ) → parse_digits (itoa n) 0 ≡ some n
unfolding parse_digits
parse_digits-itoa n =
    ap (λ t. parse_digits t 0) (sym (append-nil (itoa n)))
    ∙ itoa-read n parse_digits (λ d acc s h l. parse_digits-digit d acc s h) n [] (omega arith)

leading :
    (a b : ℕ) (s : Text)
    → 1 ≤ a
    → a < 10
    → parse_bits (digit a ∷ b ∷ s) ≡ parse_digits (digit a ∷ b ∷ s) 0
unfolding parse_bits
leading a b s h k = ground (arith, h, k)

-- The text of a length has one digit, or does not start with a zero.
pub parse_bits-itoa : (n : ℕ) → n ≤ 128 → parse_bits (itoa n) ≡ some n
unfolding parse_bits
parse_bits-itoa n h = elim (Bool-cases (ltb n 10)) [
  | inl e ↦
      let q = itoa-one n (ground (arith, e)) in
      rw (q) (ap (λ t. parse_digits t 0) (sym q) ∙ parse_digits-itoa n)
  | inr e ↦ elim (Bool-cases (ltb n 100)) [
    | inl f ↦
        let l : 10 ≤ n = ground (arith, e) in
        let m : n < 100 = ground (arith, f) in
        let q = itoa-two n l m in
        let r = ap (λ t. parse_digits t 0) (sym q) ∙ parse_digits-itoa n in
        ap parse_bits q
        ∙ (leading (n / 10) (digit (n % 10)) [] (omega (arith, l)) (omega (arith, m)) ∙ r)
    | inr f ↦
        let l : 100 ≤ n = ground (arith, f) in
        let q = itoa-three n l (omega (arith, h)) in
        let r = ap (λ t. parse_digits t 0) (sym q) ∙ parse_digits-itoa n in
        ap parse_bits q
        ∙ (leading (n / 10 / 10) (digit (n / 10 % 10)) (digit (n % 10) ∷ []) (omega (arith, l))
              (omega (arith, h))
            ∙ r)
  ]
]

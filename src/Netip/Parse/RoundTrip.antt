-- ===== src/Netip/Parse/RoundTrip.antt =====
-- How `netip` reads back the IPv4 prefixes that it prints.
use mathlib.Core.Option
use package.cloud_route_manager.Base.{
  subst, is_empty, zero, ◌∙◌, ℕ, suc, ◌-◌, ◌/◌, ◌%◌, ◌^◌, ◌≤◌, ◌<◌, Text, ◌≡◌, refl, ap, sym, ◌∙◌,
  [], ◌∷◌, ◌++◌, some, none, true, false, arith, codes, All, All-append, All-weaker, ◌=ℕ◌, ltb, leb,
  if◌then◌else◌,
}
use package.cloud_route_manager.Base.Decimal.{is_digit, itoa, itoa-digits}
use package.cloud_route_manager.Base.Strings.{
  join_texts, trim_space, trim_space-none, is_space, has_char,
}
use package.cloud_route_manager.Netip.Defs.{
  Addr, no_addr, v4, v6, is4, Prefix, prefix_from, masked, IsCanonical,
}
use package.cloud_route_manager.Netip.Print.{string_v4, addr_string, prefix_string}
use package.cloud_route_manager.Netip.Parse.{split_last, parse_prefix}
use package.cloud_route_manager.Netip.Parse.Dotted.{parse_addr-v4, parse_bits-itoa}
use package.cloud_route_manager.Netip.Parse.Bounds.{IsBounded}
use package.cloud_route_manager.Netip.Parse.Results.{IsReadBack}

split_last-none : (t : Text) → All (λ c. (c =ℕ b'/') ≡ false) t → split_last t ≡ none
unfolding split_last
split_last-none [] h = refl
split_last-none (c ∷ t) (h, hs) = rw (split_last-none t hs, h) refl

split_last-slash :
    (s t : Text) → All (λ c. (c =ℕ b'/') ≡ false) t → split_last (s ++ (b'/' ∷ t)) ≡ some (s, t)
unfolding split_last
split_last-slash [] t h = rw (split_last, split_last-none t h) refl
split_last-slash (c ∷ s) t h = rw (split_last-slash s t h) refl

digit-no-slash : (c : ℕ) → is_digit c ≡ true → (c =ℕ b'/') ≡ false
digit-no-slash c h = ground (arith, h)

digit-no-space : (c : ℕ) → is_digit c ≡ true → is_space c ≡ false
unfolding is_space
digit-no-space c h = ground (arith, h)

abbrev v4_prefix : ℕ → ℕ → Prefix
v4_prefix n bits = record { addr = v4 n; bits_plus_one = suc bits }

prefix_from-v4 : (n bits : ℕ) → bits ≤ 32 → prefix_from (v4 n) bits ≡ v4_prefix n bits
unfolding prefix_from
prefix_from-v4 n bits h = let e : leb bits 32 ≡ true = ground (arith, h) in rw (e) refl

addr_string-v4 : (n : ℕ) → addr_string (v4 n) ≡ string_v4 n
unfolding addr_string
addr_string-v4 n = refl

-- The text of an IPv4 prefix.
prefix_string-v4 :
    (n bits : ℕ) → prefix_string (v4_prefix n bits) ≡ string_v4 n ++ (b'/' ∷ itoa bits)
unfolding prefix_string
prefix_string-v4 n bits =
    let e : leb 1 (suc bits) ≡ true = ground arith in
    let m : suc bits - 1 ≡ bits = omega arith in
    ap
      (λ b.
        if b then addr_string (v4 n) ++ (b'/' ∷ itoa (suc bits - 1)) else codes "invalid Prefix")
      e
    ∙ (ap (λ k. addr_string (v4 n) ++ (b'/' ∷ itoa k)) m
        ∙ ap (λ t. t ++ (b'/' ∷ itoa bits)) (addr_string-v4 n))

parse_prefix-v4 :
    (n bits : ℕ)
    → n < 2 ^ 32
    → bits ≤ 32
    → parse_prefix (string_v4 n ++ (b'/' ∷ itoa bits)) ≡ some (prefix_from (v4 n) bits)
unfolding parse_prefix Option.bind
parse_prefix-v4 n bits h k =
    let slash = split_last-slash (string_v4 n) (itoa bits) (
      All-weaker (λ c. is_digit c ≡ true) (λ c. (c =ℕ b'/') ≡ false) digit-no-slash (itoa bits)
        (itoa-digits bits)) in
    let l : ltb 32 bits ≡ false = ground (arith, k) in
    rw (slash, parse_addr-v4 n h, parse_bits-itoa bits (omega (arith, k)), l) refl

IsUnspaced : Text → Type 0
IsUnspaced s = All (λ c. is_space c ≡ false) s

itoa-IsUnspaced : (n : ℕ) → IsUnspaced (itoa n)
unfolding IsUnspaced
itoa-IsUnspaced n =
    All-weaker (λ c. is_digit c ≡ true) (λ c. is_space c ≡ false) digit-no-space (itoa n)
      (itoa-digits n)

number-IsUnspaced : (m : ℕ) (s : Text) → IsUnspaced s → IsUnspaced (itoa m ++ s)
unfolding IsUnspaced
number-IsUnspaced m s h = All-append (λ c. is_space c ≡ false) (itoa m) s (itoa-IsUnspaced m) h

dot-IsUnspaced : (s : Text) → IsUnspaced s → IsUnspaced (b'.' ∷ s)
unfolding IsUnspaced is_space
dot-IsUnspaced s h = (refl, h)

string_v4-IsUnspaced : (n : ℕ) → IsUnspaced (string_v4 n)
unfolding string_v4 join_texts
string_v4-IsUnspaced n = number-IsUnspaced (n / 2 ^ 24) _ (
    dot-IsUnspaced _ (
      number-IsUnspaced (n / 2 ^ 16 % 2 ^ 8) _ (
        dot-IsUnspaced _ (
          number-IsUnspaced (n / 2 ^ 8 % 2 ^ 8) _
            (dot-IsUnspaced _ (itoa-IsUnspaced (n % 2 ^ 8)))))))

prefix-IsUnspaced : (n bits : ℕ) → IsUnspaced (string_v4 n ++ (b'/' ∷ itoa bits))
unfolding IsUnspaced is_space
prefix-IsUnspaced n bits =
    All-append (λ c. is_space c ≡ false) (string_v4 n) (b'/' ∷ itoa bits) (string_v4-IsUnspaced n)
      (refl, itoa-IsUnspaced bits)

-- An IPv4 prefix with no bits behind its mask is read back.
pub IsReadBack-v4 :
    (n bits : ℕ)
    → n < 2 ^ 32
    → bits ≤ 32
    → masked (prefix_from (v4 n) bits) ≡ prefix_from (v4 n) bits
    → IsReadBack (prefix_from (v4 n) bits)
unfolding IsUnspaced
IsReadBack-v4 n bits h k m =
    let e : prefix_string (prefix_from (v4 n) bits) ≡ string_v4 n ++ (b'/' ∷ itoa bits) =
      ap prefix_string (prefix_from-v4 n bits k) ∙ prefix_string-v4 n bits in
    record {
      trimmed = ap trim_space e ∙ (trim_space-none _ (prefix-IsUnspaced n bits) ∙ sym e);
      read_back = ap parse_prefix e ∙ parse_prefix-v4 n bits h k;
      is_masked = m;
    }

IsReadBack-parts :
    (a : Addr) (k : ℕ)
    → IsCanonical (record { addr = a; bits_plus_one = k })
    → is4 a ≡ true
    → IsBounded a
    → IsReadBack (record { addr = a; bits_plus_one = k })
IsReadBack-parts no_addr k c h b = cc h
IsReadBack-parts (v6 n z) k c h b = cc h
IsReadBack-parts (v4 n) zero c h b = absurd (omega (arith, c.within.0))
IsReadBack-parts (v4 n) (suc bits) c h b =
    let l : bits ≤ 32 = omega (arith, c.within.1) in
    let e = prefix_from-v4 n bits l in
    subst IsReadBack e (IsReadBack-v4 n bits b l (ap masked e ∙ (c.is_masked ∙ sym e)))

-- A canonical IPv4 prefix is read back.
pub IsReadBack-of_canonical :
    (p : Prefix) → IsCanonical p → is4 p.addr ≡ true → IsBounded p.addr → IsReadBack p
IsReadBack-of_canonical p c h b = IsReadBack-parts p.addr p.bits_plus_one c h b

has_char-append : (s t : Text) (d : ℕ) → has_char d (s ++ (d ∷ t)) ≡ true
unfolding has_char
has_char-append [] t d = ground arith
has_char-append (c ∷ s) t d = ground (arith, has_char-append s t d)

append-filled : (s t : Text) (d : ℕ) → is_empty (s ++ (d ∷ t)) ≡ false
append-filled [] t d = refl
append-filled (c ∷ s) t d = refl

-- The text of a valid prefix has a slash.
pub prefix_string-slash :
    (p : Prefix)
    → 1 ≤ p.bits_plus_one
    → (is_empty (prefix_string p) ≡ false) × (has_char b'/' (prefix_string p) ≡ true)
unfolding prefix_string
prefix_string-slash p h =
    let e : leb 1 p.bits_plus_one ≡ true = ground (arith, h) in
    let text = itoa (p.bits_plus_one - 1) in
    ground (
      arith,
      e,
      append-filled (addr_string p.addr) text b'/',
      has_char-append (addr_string p.addr) text b'/',
    )

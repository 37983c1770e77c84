-- ===== src/Netip/Parse.antt =====
-- `netip.ParseAddr` and `netip.ParsePrefix`; of an error only that it is one.
pub mod Results
mod Dotted
pub mod Bounds
pub mod RoundTrip
use Prim.Native.Nat.{ℕ, zero, suc, ◌+◌, ◌-◌, ◌*◌, ◌/◌, ◌%◌, ◌^◌}
use mathlib.Core.Bool.{Bool, true, false, ◌&&◌, ◌||◌, not}
use mathlib.Core.Option.{Option, none, some}
use mathlib.Core.Option
use mathlib.Core.List.{List, [], ◌∷◌, ◌++◌, foldl}
use package.cloud_route_manager.Base.{
  Text, ◌=ℕ◌, ltb, leb, if◌then◌else◌, is_empty, is_none, is_some, length,
}
use package.cloud_route_manager.Base.Decimal.{is_digit}
use package.cloud_route_manager.Base.Strings.{has_char, before}
use package.cloud_route_manager.Netip.Defs.{Addr, v4, v6, Prefix, is4, prefix_from}

-- `parseIPv4Fields`. `acc` holds the `pos` fields before, `val` and `digits` the current one. A dot
-- wants a digit before it, since the field would be empty, and a character behind it.
parse_v4 : Text → ℕ → ℕ → ℕ → ℕ → Option ℕ
parse_v4 [] acc pos val digits = if ltb pos 3 then none else some (acc * 256 + val)
parse_v4 (c ∷ s) acc pos val digits =
    let val' = val * 10 + (c - b'0') in
    let in_field = parse_v4 s acc pos val' (digits + 1) in
    let next_field = parse_v4 s (acc * 256 + val) (pos + 1) 0 0 in
    if is_digit c
    then if digits =ℕ 1 && val =ℕ 0 then none else if ltb 255 val' then none else in_field
    else if c =ℕ b'.'
    then if digits =ℕ 0 || is_empty s then none else if pos =ℕ 3 then none else next_field
    else none

hex_digit : ℕ → Option ℕ
hex_digit c =
    if is_digit c
    then some (c - b'0')
    else if leb b'a' c && leb c b'f'
    then some (c - b'a' + 10)
    else if leb b'A' c && leb c b'F'
    then some (c - b'A' + 10)
    else none

record Group : Type 0 where
  off : ℕ
  value : ℕ
  rest : Text

-- The hexadecimal digits of one group, four at most.
read_group : Text → ℕ → ℕ → Option Group
read_group [] off acc = some (record { off = off; value = acc; rest = [] })
read_group (c ∷ s) off acc = elim (hex_digit c) [
  | none ↦ some (record { off = off; value = acc; rest = c ∷ s })
  | some d ↦ if ltb 3 off then none else read_group s (off + 1) (acc * 16 + d)
]

-- What the loop of `parseIPv6` leaves: the groups read, the place of the ellipsis, how many groups
-- are missing, and the rest of the text.
record Groups : Type 0 where
  read : List ℕ
  ellipsis : Option ℕ
  missing : ℕ
  left : Text

-- The embedded IPv4 address stands for two groups, and ends the text.
embedded : ℕ → Text → List ℕ → Option ℕ → Option Groups
unfolding parse_v4
embedded left s gs ellipsis =
    if is_none ellipsis && not (left =ℕ 2)
    then none
    else if ltb left 2
    then none
    else Option.map
        (λ n. record {
          read = gs ++ ((n / 2 ^ 16) ∷ (n % 2 ^ 16) ∷ []);
          ellipsis = ellipsis;
          missing = left - 2;
          left = [];
        })
        (parse_v4 s 0 0 0 0)

-- Behind a group: the end, or a colon and more; `more` goes on with the loop.
after_group : ℕ → List ℕ → Option ℕ → Text → (Text → Option ℕ → Option Groups) → Option Groups
after_group left gs ellipsis [] more =
    some (record { read = gs; ellipsis = ellipsis; missing = left; left = [] })
after_group left gs ellipsis (c ∷ []) more = none
after_group left gs ellipsis (c ∷ d ∷ s) more =
    if not (c =ℕ b':')
    then none
    else if not (d =ℕ b':')
    then more (d ∷ s) ellipsis
    else if is_some ellipsis
    then none
    else if is_empty s
    then some (record { read = gs; ellipsis = some (length gs); missing = left; left = [] })
    else more s (some (length gs))

-- The loop of `parseIPv6`; the number is how many groups may still come.
read_groups : ℕ → Text → List ℕ → Option ℕ → Option Groups
unfolding read_group embedded after_group hex_digit
read_groups zero s gs ellipsis =
    some (record { read = gs; ellipsis = ellipsis; missing = 0; left = s })
read_groups (suc left) s gs ellipsis = elim (read_group s 0 0) [
  | none ↦ none
  | some g ↦ if g.off =ℕ 0 then none else elim g.rest [
    | [] ↦ after_group left (gs ++ (g.value ∷ [])) ellipsis [] (λ s' e. none)
    | c ∷ r ↦
        if c =ℕ b'.'
        then embedded (suc left) s gs ellipsis
        else after_group left (gs ++ (g.value ∷ [])) ellipsis (c ∷ r)
            λ s' e. read_groups left s' (gs ++ (g.value ∷ [])) e
  ]
]

abbrev zeros : ℕ → List ℕ → List ℕ
zeros zero gs = gs
zeros (suc n) gs = 0 ∷ zeros n gs

abbrev insert_zeros : ℕ → ℕ → List ℕ → List ℕ
insert_zeros n zero gs = zeros n gs
insert_zeros n (suc i) [] = zeros n []
insert_zeros n (suc i) (g ∷ gs) = g ∷ insert_zeros n i gs

value_of : List ℕ → ℕ
value_of = foldl (λ acc g. acc * 2 ^ 16 + g) 0

-- The end of `parseIPv6`: the ellipsis stands for at least one group.
finish : Groups → Option ℕ
unfolding value_of
finish r = if not (is_empty r.left) then none else elim r.ellipsis [
  | none ↦ if ltb 0 r.missing then none else some (value_of r.read)
  | some e ↦ if ltb 0 r.missing then some (value_of (insert_zeros r.missing e r.read)) else none
]

-- A leading ellipsis; `::` alone is the unspecified address.
parse_v6 : Text → Option ℕ
unfolding read_groups finish
parse_v6 s = elim s [
  | [] ↦ Option.bind (read_groups 8 [] [] none) finish
  | c ∷ [] ↦ Option.bind (read_groups 8 (c ∷ []) [] none) finish
  | c ∷ d ∷ r ↦
      if c =ℕ b':' && d =ℕ b':'
      then if is_empty r then some 0 else Option.bind (read_groups 8 r [] (some 0)) finish
      else Option.bind (read_groups 8 (c ∷ d ∷ r) [] none) finish
]

abbrev after_char : ℕ → Text → Text
after_char d [] = []
after_char d (c ∷ s) = if c =ℕ d then s else after_char d s

-- `parseIPv6`, with its zone.
parse_zoned : Text → Option Addr
unfolding parse_v6
parse_zoned s =
    if has_char b'%' s && is_empty (after_char b'%' s)
    then none
    else Option.map (λ n. v6 n (after_char b'%' s)) (parse_v6 (before (b'%' ∷ []) s))

-- `netip.ParseAddr`: the first dot, colon or percent sign says what the text is.
parse_by : Text → Text → Option Addr
unfolding parse_v4 parse_zoned
parse_by s [] = none
parse_by s (c ∷ r) =
    if c =ℕ b'.'
    then Option.map v4 (parse_v4 s 0 0 0 0)
    else if c =ℕ b':'
    then parse_zoned s
    else if c =ℕ b'%'
    then none
    else parse_by s r

unfoldable pub parse_addr : Text → Option Addr
unfolding parse_by has_char before Option.bind
parse_addr s = parse_by s s

parse_digits : Text → ℕ → Option ℕ
parse_digits [] n = some n
parse_digits (c ∷ s) n = if is_digit c then parse_digits s (n * 10 + (c - b'0')) else none

-- The length behind the slash: a decimal number with no sign and no leading zero.
pub parse_bits : Text → Option ℕ
unfolding parse_digits
parse_bits [] = none
parse_bits (c ∷ []) = parse_digits (c ∷ []) 0
parse_bits (c ∷ d ∷ s) = if leb b'1' c && leb c b'9' then parse_digits (c ∷ d ∷ s) 0 else none

-- The text before the last slash, and the one behind it.
split_last : Text → Option (Text × Text)
split_last [] = none
split_last (c ∷ s) = elim (split_last s) [
  | some (a, b) ↦ some (c ∷ a, b)
  | none ↦ if c =ℕ b'/' then some ([], s) else none
]

abbrev has_zone : Addr → Bool
has_zone (v6 n (c ∷ z)) = true
has_zone _ = false

-- `netip.ParsePrefix`
unfoldable pub parse_prefix : Text → Option Prefix
unfolding split_last parse_bits parse_addr prefix_from Option.bind
parse_prefix s = Option.bind (split_last s) λ (a, b). Option.bind (parse_addr a) λ addr.
    if has_zone addr
    then none
    else Option.bind (parse_bits b) λ bits.
      if ltb (if is4 addr then 32 else 128) bits then none else some (prefix_from addr bits)

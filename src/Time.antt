-- ===== src/Time.antt =====
-- Go's `time.Duration` and `time.ParseDuration`, and the `%d` of `fmt.Sscanf` at a duration: what
-- internal/config/config.go reads durations with.
pub mod Numbers
pub mod Rounds
pub mod Range
use cloud_route_manager.Base.{
  ℕ, zero, suc, ◌+◌, ◌-◌, ◌*◌, ◌/◌, ◌%◌, ◌^◌, Text, codes, Bool, true, false, not, ◌&&◌, ◌||◌, [],
  ◌∷◌, ◌=ℕ◌, ◌==◌, text_eq, ltb, leb, if◌then◌else◌, is_empty, Option, none, some, length,
}
use cloud_route_manager.Base.Decimal.{is_digit}
use cloud_route_manager.Base.Maps.{Map, lookup}

-- A number of nanoseconds in 64 bits; a duration below zero is `negative`.
pub data Duration : Type 0 where
  negative : ℕ → Duration
  nanoseconds : ℕ → Duration

-- The integer of 64 bits with the residue of a number.
abbrev pub wrapped : ℕ → Duration
wrapped n =
    if ltb (n % 2 ^ 64) (2 ^ 63) then nanoseconds (n % 2 ^ 64) else negative (2 ^ 64 - n % 2 ^ 64)

-- The integer of 64 bits with the residue of minus a number.
abbrev pub negated : ℕ → Duration
negated n = wrapped (2 ^ 64 - n % 2 ^ 64)

-- A product of durations, the second one positive.
abbrev pub times : Duration → ℕ → Duration
times (negative n) k = negated (n * k)
times (nanoseconds n) k = wrapped (n * k)

abbrev pub second : ℕ
second = 1_000_000_000

-- `leadingInt`: the number at the head of a text and the rest, unless it overflows.
unfoldable pub leading_int : Text → ℕ → Option (ℕ × Text)
leading_int [] x = some (x, [])
leading_int (c ∷ s) x =
    let rest = leading_int s (x * 10 + (c - b'0')) in
    if not (is_digit c)
    then some (x, c ∷ s)
    else if ltb (2 ^ 63 / 10) x
    then none
    else if ltb (2 ^ 63) (x * 10 + (c - b'0'))
    then none
    else rest

-- What `leadingFraction` returns: the digits read, how many they are, and the rest.
pub record Fraction : Type 0 where
  pub value : ℕ
  pub digits : ℕ
  pub rest : Text

-- `leadingFraction`. Digits behind an overflow are skipped.
unfoldable pub leading_fraction : Text → ℕ → ℕ → Bool → Fraction
leading_fraction [] x k over = record { value = x; digits = k; rest = [] }
leading_fraction (c ∷ s) x k over =
    let skipped = leading_fraction s x k true in
    let read = leading_fraction s (x * 10 + (c - b'0')) (k + 1) false in
    if not (is_digit c)
    then record { value = x; digits = k; rest = c ∷ s }
    else if over || ltb ((2 ^ 63 - 1) / 10) x || ltb (2 ^ 63) (x * 10 + (c - b'0'))
    then skipped
    else read

-- The unit at the head of a text, which ends before a digit or a dot, and the rest.
unfoldable pub split_unit : Text → Text × Text
split_unit [] = ([], [])
split_unit (c ∷ s) =
    let (u, r) = split_unit s in if c =ℕ b'.' || is_digit c then ([], c ∷ s) else (c ∷ u, r)

-- `unitMap`. The micro sign stands at two code points.
unfoldable pub unit_map : Map Text ℕ
unit_map =
    (codes "ns", 1)
    ∷ (codes "us", 1_000)
    ∷ (0xb5 ∷ b's' ∷ [], 1_000)
    ∷ (0x3bc ∷ b's' ∷ [], 1_000)
    ∷ (codes "ms", 1_000_000)
    ∷ (codes "s", second)
    ∷ (codes "m", 60 * second)
    ∷ (codes "h", 3_600 * second)
    ∷ []

-- The fraction behind a dot; no dot is no digits.
unfoldable pub after_dot : Text → Fraction
unfolding leading_fraction
after_dot [] = record { value = 0; digits = 0; rest = [] }
after_dot (c ∷ s) =
    if c =ℕ b'.'
    then leading_fraction s 0 0 false
    else record { value = 0; digits = 0; rest = c ∷ s }

-- Whether characters were consumed between two rests of one text.
abbrev shorter : Text → Text → Bool
shorter r s = ltb (length r) (length s)

abbrev digit_or_dot : Text → Bool
digit_or_dot [] = false
digit_or_dot (c ∷ s) = c =ℕ b'.' || is_digit c

-- A dot, and a digit behind it.
abbrev has_fraction : Text → Bool
has_fraction (c ∷ d ∷ s) = c =ℕ b'.' && is_digit d
has_fraction _ = false

module _
    (
      -- `uint64(float64(f) * (float64(unit) / scale))`, from `f`, how many digits `scale` stands for, and
      -- the unit.
      float_product : ℕ → ℕ → ℕ → ℕ) where
  -- The amount of one number with its fraction and its unit.
  abbrev pub amount : ℕ → Fraction → ℕ → Option ℕ
  amount v f unit =
      let w = (v * unit + float_product f.value f.digits unit) % 2 ^ 64 in
      if ltb (2 ^ 63 / unit) v
      then none
      else if ltb 0 f.value
      then if ltb (2 ^ 63) w then none else some w
      else some (v * unit)

  -- The end of a round: the unit, and the amount beside the rest.
  abbrev pub with_unit : ℕ → Fraction → Text → Option ℕ → Option (ℕ × Text)
  with_unit v f r none = none
  with_unit v f r (some unit) = elim (amount v f unit) [ none ↦ none | some a ↦ some (a, r) ]

  abbrev pub after_fraction : ℕ → Fraction → Text × Text → Option (ℕ × Text)
  after_fraction v f ([], r) = none
  after_fraction v f (c ∷ u, r) = with_unit v f r (lookup (c ∷ u) unit_map)

  -- A round behind the integer.
  abbrev pub after_int : Text → Option (ℕ × Text) → Option (ℕ × Text)
  after_int s none = none
  after_int s (some (v, r)) =
      if not (shorter r s || has_fraction r)
      then none
      else after_fraction v (after_dot r) (split_unit ((after_dot r).rest))

  -- A round of the loop of `ParseDuration`, on a text that is not empty.
  unfoldable pub piece : Text → Option (ℕ × Text)
  piece s = if not (digit_or_dot s) then none else after_int s (leading_int s 0)

  -- The loop. A round takes a character at least, so the length of the text is fuel enough.
  unfoldable pub pieces : ℕ → Text → ℕ → Option ℕ
  pieces fuel [] d = some d
  pieces zero (c ∷ s) d = none
  pieces (suc fuel) (c ∷ s) d = elim (piece (c ∷ s)) [
    | none ↦ none
    | some (v, r) ↦
        let rest = pieces fuel r ((d + v) % 2 ^ 64) in
        if ltb (2 ^ 63) ((d + v) % 2 ^ 64) then none else rest
  ]

  abbrev pub with_sign : Bool → Option ℕ → Option Duration
  with_sign neg none = none
  with_sign true (some d) = some (negated d)
  with_sign false (some d) = if ltb (2 ^ 63 - 1) d then none else some (nanoseconds d)

  -- The text behind the sign.
  unfoldable pub unsigned : Bool → Text → Option Duration
  unsigned neg s =
      if s == codes "0"
      then some (nanoseconds 0)
      else if is_empty s
      then none
      else with_sign neg (pieces (length s) s 0)

  -- `time.ParseDuration`
  unfoldable pub parse_duration : Text → Option Duration
  parse_duration [] = unsigned false []
  parse_duration (c ∷ s) =
      if c =ℕ b'-' || c =ℕ b'+' then unsigned (c =ℕ b'-') s else unsigned false (c ∷ s)

-- The digits at the head of a text, as a number.
unfoldable pub scan_digits : Text → ℕ → ℕ
scan_digits [] n = n
scan_digits (c ∷ s) n =
    let rest = scan_digits s (n * 10 + (c - b'0')) in if is_digit c then rest else n

-- The range check of `strconv.ParseInt` at 64 bits.
abbrev in_range : Bool → ℕ → Option Duration
in_range true n = if ltb (2 ^ 63) n then none else some (negated n)
in_range false n = if leb (2 ^ 63) n then none else some (nanoseconds n)

abbrev scan_unsigned : Bool → Text → Option Duration
scan_unsigned neg [] = none
scan_unsigned neg (c ∷ s) = if is_digit c then in_range neg (scan_digits (c ∷ s) 0) else none

-- `fmt.Sscanf(s, "%d", &n)` for an `int64`, on a text with no space at its head. What stands behind
-- the digits is not looked at.
unfoldable pub scan_int : Text → Option Duration
unfolding scan_digits
scan_int [] = none
scan_int (c ∷ s) =
    if c =ℕ b'-' || c =ℕ b'+' then scan_unsigned (c =ℕ b'-') s else scan_unsigned false (c ∷ s)

-- ===== src/Yandex/Rows.antt =====
-- internal/cloud/yandex/routes.go: the row that a table holds for a prefix, and the rows that are
-- written.
use cloud_route_manager.Base.{
  ◌≡◌, refl, ap, ◌∙◌, Text, text_eq, Bool, true, false, List, [], ◌∷◌, ◌++◌, arith, ◌==◌,
  if◌then◌else◌, is_empty, Option, none, some, is_none,
}
use cloud_route_manager.Base.Maps.{lookup, erase, lookup-insert, lookup-erase}
use cloud_route_manager.Netip.{
  Prefix, prefix_eq, IsReadBack, parse_prefix-nil, parse_prefix, prefix_string, masked,
}
use cloud_route_manager.Base.Strings.{trim_space}
use cloud_route_manager.Yandex.Values.{str}
use cloud_route_manager.Yandex.{
  Row, string_value, parse_field, previous_next_hop, row_prefix, take_over, new_row, next_hop_key,
  gateway_key, destination_key,
}

-- The row is filed under the prefix.
abbrev pub has_prefix : Prefix → Row → Bool
has_prefix p row = elim (row_prefix row) [ none ↦ false | some q ↦ q == p ]

-- The first row of a prefix.
unfoldable pub held : Prefix → List Row → Option Row
held p [] = none
held p (row ∷ rows) = if has_prefix p row then some row else held p rows

-- There is such a row, and it goes to the next hop.
abbrev pub points : Text → Option Row → Bool
points next_hop none = false
points next_hop (some row) = previous_next_hop row == next_hop

pub keys_differ :
    ((next_hop_key == destination_key) ≡ false)
    × ((gateway_key == destination_key) ≡ false)
    × ((next_hop_key == next_hop_key) ≡ true)
unfolding text_eq
keys_differ = (refl, refl, refl)

-- Taking a row over changes no field but the next hop and the gateway.
pub lookup-take_over :
    (nh : Text) (row : Row) (k : Text)
    → (next_hop_key == k) ≡ false
    → (gateway_key == k) ≡ false
    → lookup k (take_over nh row) ≡ lookup k row
unfolding take_over
lookup-take_over nh row k n g =
    lookup-insert next_hop_key k (str nh) (erase gateway_key row)
    ∙ rw n (lookup-erase gateway_key k row ∙ rw g)

lookup-take_over_self :
    (nh : Text) (row : Row) → lookup next_hop_key (take_over nh row) ≡ some (str nh)
unfolding take_over
lookup-take_over_self nh row =
    lookup-insert next_hop_key next_hop_key (str nh) (erase gateway_key row) ∙ rw (keys_differ.2)

pub row_prefix-take_over : (nh : Text) (row : Row) → row_prefix (take_over nh row) ≡ row_prefix row
unfolding row_prefix
row_prefix-take_over nh row =
    ap (λ o. parse_field (string_value o))
      (lookup-take_over nh row destination_key keys_differ.0 keys_differ.1)

pub next_hop-take_over :
    (nh : Text) (row : Row) → is_empty nh ≡ false → previous_next_hop (take_over nh row) ≡ nh
unfolding previous_next_hop
next_hop-take_over [] row h = cc h
next_hop-take_over (c ∷ nh) row h = cc (lookup-take_over_self (c ∷ nh) row)

parse_field-prefix :
    (s : Text) (p : Prefix)
    → trim_space s ≡ s
    → parse_prefix s ≡ some p
    → masked p ≡ p
    → parse_field (string_value (some (str s))) ≡ some p
parse_field-prefix [] p t e m = cc (parse_prefix-nil)
parse_field-prefix (c ∷ s) p t e m = rw t (rw e (rw m))

pub row_prefix-new_row :
    (nh : Text) (p : Prefix) → IsReadBack p → row_prefix (new_row nh p) ≡ some p
unfolding row_prefix new_row lookup text_eq
row_prefix-new_row nh p b = parse_field-prefix (prefix_string p) p b.trimmed b.read_back b.is_masked

pub next_hop-new_row :
    (nh : Text) (p : Prefix) → is_empty nh ≡ false → previous_next_hop (new_row nh p) ≡ nh
unfolding previous_next_hop new_row lookup text_eq
next_hop-new_row [] p h = cc h
next_hop-new_row (c ∷ nh) p h = refl

pub held-nil : (p : Prefix) → held p [] ≡ none
unfolding held
held-nil p = refl

pub held-cons :
    (p : Prefix) (row : Row) (rows : List Row)
    → held p (row ∷ rows) ≡ (if has_prefix p row then some row else held p rows)
unfolding held
held-cons p row rows = refl

pub held-snoc :
    (p : Prefix) (rows : List Row) (row : Row)
    → held p (rows ++ (row ∷ [])) ≡ (
        if is_none (held p rows)
        then (if has_prefix p row then some row else none)
        else held p rows)
unfolding held
held-snoc p [] row = refl
held-snoc p (r ∷ rows) row = ground (arith, held-snoc p rows row)

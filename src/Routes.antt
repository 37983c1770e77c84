-- ===== src/Routes.antt =====
-- internal/routes/routes.go: sets of prefixes, and the parser of route lists.
pub mod Order
pub mod Sets
pub mod Parsing
pub mod Members
pub mod Invariance
pub mod ReadBack
use cloud_route_manager.Base.{
  ℕ, ◌+◌, ◌<◌, Text, codes, Bool, true, false, ◌&&◌, ◌||◌, Option, none, some, List, [], ◌∷◌, ◌++◌,
  ◌==◌, ◌=ℕ◌, ltb, if◌then◌else◌, is_empty, length, contains, map, Error, errorf, wrapf, Result, ok,
  err,
}
use Prim.Native.Nat.{Ordering}
use mathlib.Core.Bool.{xor}
use cloud_route_manager.Base.Strings.{
  trim_space, trim_suffix, split, before, fields_func, has_char, join_texts,
}
use cloud_route_manager.Base.Sorting.{sort_by}
use cloud_route_manager.Netip.{
  Addr, is4, bit_len, unmap, Prefix, prefix_eq, prefix_from, masked, compare_addr, parse_addr,
  parse_prefix, prefix_string,
}

-- `Set`: the keys of the map `seen`, and the slice `items`.
pub record RouteSet : Type 0 where
  pub seen : List Prefix
  pub items : List Prefix

abbrev pub new_set : RouteSet
new_set = record { seen = []; items = [] }

-- `Set.Add`, with its report.
unfoldable pub add : Prefix → RouteSet → RouteSet × Bool
add p s =
    if contains s.seen p
    then (s, false)
    else (record { seen = p ∷ s.seen; items = s.items ++ (p ∷ []) }, true)

-- `Set.AddAll`
unfoldable pub add_all : List Prefix → RouteSet → RouteSet
add_all [] s = s
add_all (p ∷ ps) s = add_all ps (add p s).0

-- `Set.Len`
unfoldable pub len : RouteSet → ℕ
len s = length s.seen

-- `Less`; `xor` is `!=` of Booleans.
unfoldable pub less : Prefix → Prefix → Bool
unfolding xor
less a b = if xor (is4 a.addr) (is4 b.addr) then is4 a.addr else elim (compare_addr a.addr b.addr) [
  | Ordering.lt ↦ true
  | Ordering.gt ↦ false
  | Ordering.eq ↦ ltb a.bits_plus_one b.bits_plus_one
]

-- `Set.Sorted`
unfoldable pub sorted : RouteSet → List Prefix
sorted s = sort_by less s.items

-- `Strings`
unfoldable pub strings : List Prefix → List Text
strings = map prefix_string

-- `ParseOne`
unfoldable pub parse_one : Text → Result Prefix
parse_one token =
    let t = trim_space token in
    if is_empty t
    then err (errorf "empty route" [])
    else if has_char b'/' t
    then elim (parse_prefix t) [
      | none ↦ err (wrapf "parse prefix %q: %w" (t ∷ []) (errorf "netip.ParsePrefix" (t ∷ [])))
      | some p ↦ ok (masked p)
    ]
    else elim (parse_addr t) [
      | none ↦ err (wrapf "parse address %q: %w" (t ∷ []) (errorf "netip.ParseAddr" (t ∷ [])))
      | some a ↦ ok (prefix_from (unmap a) (bit_len (unmap a)))
    ]

-- The separators that `Parse` hands to `FieldsFunc`.
abbrev is_separator : ℕ → Bool
is_separator c = c =ℕ b',' || c =ℕ b';' || c =ℕ b' ' || c =ℕ b'\t'

-- The tokens of one line: what stands before a comment, cut at the separators.
unfoldable pub line_tokens : Text → List Text
line_tokens line =
    fields_func is_separator
      (before (codes "//") (before (codes "#") (trim_space (trim_suffix b'\r' line))))

-- What the loops of `Parse` carry: the set and the bad tokens.
pub record Parser : Type 0 where
  pub set : RouteSet
  pub bad : List Text

-- One round of the inner loop of `Parse`, from what `ParseOne` returns for the token.
unfoldable pub step : Text → Result Prefix → Parser → Parser
step t (err e) st = record st { bad = st.bad ++ (t ∷ []) }
step t (ok p) st = record st { set = (add p st.set).0 }

-- The inner loop, over the tokens of a line.
unfoldable pub parse_tokens : List Text → Parser → Parser
parse_tokens [] st = st
parse_tokens (t ∷ ts) st = parse_tokens ts (step t (parse_one t) st)

-- The outer loop, over the lines.
unfoldable pub parse_lines : List Text → Parser → Parser
parse_lines [] st = st
parse_lines (l ∷ ls) st = parse_lines ls (parse_tokens (line_tokens l) st)

abbrev new_parser : Parser
new_parser = record { set = new_set; bad = [] }

-- `Parse`: the routes, with an error that names every bad token.
unfoldable pub parse : Text → List Prefix × Option Error
parse raw =
    let st = parse_lines (split b'\n' raw) new_parser in
    (
      sorted st.set,
      if is_empty st.bad
          then none
          else some (errorf "invalid routes: %s" (join_texts (codes ", ") st.bad ∷ [])),
    )

-- ===== src/Tests/Routes.antt =====
-- Route lists, and their theorems at examples.
use cloud_route_manager.Base.{
  codes, refl, ◌≡◌, [], ◌∷◌, some, none, ok, contains, true, false, All, SameMembers, ◌||◌,
  is_empty, if◌then◌else◌, errorf, List, ℕ, Bool, ◌==◌, arith,
}
use cloud_route_manager.Base.Strings.{
  join_texts, split, fields_func, before, trim_space, trim_suffix, has_char, fields_loop,
  has_prefix,
}
use cloud_route_manager.Base.Sorting.{Ascending, sort_by, insert_by}
use mathlib.Core.Bool.{xor}
use cloud_route_manager.Netip.{
  Prefix, prefix_eq, IsCanonical, v6, parse_addr, parse_prefix, masked, prefix_from, unmap,
  compare_addr, is4, prefix_string, IsReadBack,
}
use cloud_route_manager.Routes.{
  parse_lines, parse_tokens, line_tokens, step, RouteSet, new_set, add, add_all, less, sorted,
  parse, parse_one,
}
use cloud_route_manager.Routes.Sets.{IsValid, new_set-IsValid, add-IsValid, contains-add_all}
use cloud_route_manager.Routes.Members.{tokens, denoted, rejected}
use cloud_route_manager.Routes.Invariance.{
  contains-parse, parse-Ascending, error-parse, parse_invariant,
}
use cloud_route_manager.Routes.ReadBack.{parse-printed}
use cloud_route_manager.Tests.Data.{ten, office, both}

-- Two spellings of one list.
abbrev list_a : List ℕ
list_a = codes "192.168.5.7/24, 10.0.0.0/8 # office\n10.1.2.3/8;bad"

abbrev list_b : List ℕ
list_b = codes "10.0.0.0/8\r\n192.168.5.0/24 // and more"

parse_a : (parse list_a).0 ≡ both
unfolding parse parse_lines split parse_tokens line_tokens fields_func before trim_space trim_suffix
    step parse_one has_char parse_addr parse_prefix masked prefix_from unmap add prefix_eq sorted
    sort_by insert_by less xor fields_loop has_prefix compare_addr
parse_a = refl

parse_a_error : (parse list_a).1 ≡ some (errorf "invalid routes: %s" (codes "bad" ∷ []))
unfolding parse parse_lines split parse_tokens line_tokens fields_func before trim_space trim_suffix
    step parse_one has_char parse_addr parse_prefix join_texts
parse_a_error = refl

less_families : less ten (record { addr = v6 1 []; bits_plus_one = 1 }) ≡ true
unfolding less
less_families = refl

-- The set of the two examples, added in either order.
abbrev forth : RouteSet
forth = (add office (add ten new_set).0).0

abbrev back : RouteSet
back = (add ten (add office new_set).0).0

forth-IsValid : IsValid forth
forth-IsValid = add-IsValid office _ (add-IsValid ten new_set new_set-IsValid)

back-IsValid : IsValid back
back-IsValid = add-IsValid ten _ (add-IsValid office new_set new_set-IsValid)

same_members : SameMembers forth.items back.items
unfolding add prefix_eq
same_members a = or_comm (ten == a) (office == a)
  where
    or_comm : (x y : Bool) → (x || (y || false)) ≡ (y || (x || false))
    or_comm x y = ground arith

same_denoted :
    (a : Prefix)
    → denoted (tokens (codes "10.1.2.3/8;10.0.0.0/8")) a ≡ denoted (tokens (codes "10.0.0.0/8")) a
unfolding tokens split line_tokens fields_func before trim_space trim_suffix parse_one has_char
    parse_addr parse_prefix masked
same_denoted a = or_idem (ten == a)
  where
    or_idem : (x : Bool) → (x || (x || false)) ≡ (x || false)
    or_idem x = ground arith

parse_invariant_example : (parse (codes "10.1.2.3/8;10.0.0.0/8")).0 ≡ (parse (codes "10.0.0.0/8")).0
parse_invariant_example =
    parse_invariant (codes "10.1.2.3/8;10.0.0.0/8") (codes "10.0.0.0/8") same_denoted

contains-parse_example : contains (parse list_a).0 office ≡ denoted (tokens list_a) office
contains-parse_example = contains-parse list_a office

parse-Ascending_example : Ascending less (parse list_a).0 × All IsCanonical (parse list_a).0
parse-Ascending_example = parse-Ascending list_a

error-parse_example : (parse list_b).1 ≡ (
    if is_empty (rejected (tokens list_b))
    then none
    else some
        (errorf "invalid routes: %s" (join_texts (codes ", ") (rejected (tokens list_b)) ∷ [])))
error-parse_example = error-parse list_b

parse_one-ten : parse_one (codes " 10.1.2.3/8") ≡ ok ten
unfolding parse_one trim_space has_char parse_prefix masked
parse_one-ten = refl

contains-add_all_example :
    contains (add_all both new_set).items ten ≡ (contains both ten || contains new_set.items ten)
contains-add_all_example = contains-add_all both new_set ten new_set-IsValid

parse-printed_example :
    All
      (λ p. is4 p.addr ≡ true → (parse_one (prefix_string p) ≡ ok p) × IsReadBack p)
      (parse (codes "10.0.0.0/8, 192.0.2.7")).0
parse-printed_example = parse-printed (codes "10.0.0.0/8, 192.0.2.7")

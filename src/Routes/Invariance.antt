-- ===== src/Routes/Invariance.antt =====
-- internal/routes/routes.go: what `Parse` returns, by the tokens of its text.
use cloud_route_manager.Base.{
  ◌≡◌, ap, ◌∙◌, sym, Text, codes, text_eq, [], ◌∷◌, arith, if◌then◌else◌, contains, All, none, some,
  errorf, is_empty, ok,
}
use cloud_route_manager.Base.Strings.{join_texts}
use cloud_route_manager.Base.Sorting.{Ascending, sort_by-All}
use cloud_route_manager.Netip.{Prefix, prefix_eq, IsCanonical}
use cloud_route_manager.Routes.{RouteSet, parse, parse_one, less, sorted, parse_tokens, new_set}
use cloud_route_manager.Routes.Parsing.{parse_one-IsCanonical}
use cloud_route_manager.Routes.Sets.{
  IsValid, new_set-IsValid, sorted-Ascending, contains-sorted, sorted_unique,
}
use cloud_route_manager.Routes.Members.{
  tokens, denoted, rejected, parse_lines-tokens, parse_tokens-IsValid, contains-parse_tokens,
  bad-parse_tokens, parse_tokens-All,
}

-- The set that `Parse` has collected at its end.
collected : Text → RouteSet
collected raw = (parse_tokens (tokens raw) (record { set = new_set; bad = [] })).set

collected-IsValid : (raw : Text) → IsValid (collected raw)
unfolding collected
collected-IsValid raw = parse_tokens-IsValid (tokens raw) _ new_set-IsValid

parse-collected : (raw : Text) → (parse raw).0 ≡ sorted (collected raw)
unfolding parse collected
parse-collected raw = rw parse_lines-tokens

contains-collected :
    (raw : Text) (a : Prefix) → contains (collected raw).items a ≡ denoted (tokens raw) a
unfolding collected
contains-collected raw a = contains-parse_tokens (tokens raw) _ a new_set-IsValid ∙ ground arith

-- `Parse` returns a prefix exactly if a token of the text denotes it.
pub contains-parse : (raw : Text) (a : Prefix) → contains (parse raw).0 a ≡ denoted (tokens raw) a
contains-parse raw a =
    ap (λ l. contains l a) (parse-collected raw)
    ∙ (contains-sorted (collected raw) a ∙ contains-collected raw a)

pub parse-All :
    (P : Prefix → Type 0)
    → ((t : Text) (p : Prefix) → parse_one t ≡ ok p → P p)
    → (raw : Text) → All P (parse raw).0
unfolding collected
parse-All P h raw =
    rw parse-collected
      (unfold sorted in sort_by-All less P _ (parse_tokens-All P h (tokens raw) _ tt))

-- The routes that `Parse` returns stand in ascending order, none twice, and each is canonical.
pub parse-Ascending : (raw : Text) → Ascending less (parse raw).0 × All IsCanonical (parse raw).0
parse-Ascending raw = (
  rw parse-collected (sorted-Ascending (collected raw) (collected-IsValid raw)),
  parse-All IsCanonical parse_one-IsCanonical raw,
)

-- The error of `Parse` names the rejected tokens, in the order of the text; there is none if all
-- tokens are routes.
pub error-parse :
    (raw : Text)
    → (parse raw).1 ≡ (
        if is_empty (rejected (tokens raw))
        then none
        else some
            (errorf "invalid routes: %s" (join_texts (codes ", ") (rejected (tokens raw)) ∷ [])))
unfolding parse
error-parse raw = rw (parse_lines-tokens, bad-parse_tokens)

-- Two texts whose tokens denote the same prefixes are parsed into the same list: the order of the
-- tokens, their repetition, their spelling and their division into lines do not matter.
pub parse_invariant :
    (raw other : Text)
    → ((a : Prefix) → denoted (tokens raw) a ≡ denoted (tokens other) a)
    → (parse raw).0 ≡ (parse other).0
parse_invariant raw other h =
    parse-collected raw
    ∙ (sorted_unique (collected raw) (collected other) (collected-IsValid raw)
          (collected-IsValid other)
          (λ a. contains-collected raw a ∙ (h a ∙ sym (contains-collected other a)))
        ∙ sym (parse-collected other))

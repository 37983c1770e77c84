-- ===== src/Routes/Members.antt =====
-- internal/routes/routes.go: the loops of `Parse`, as one pass over the tokens of the whole text.
use mathlib.Core.List.{append_assoc, append-nil}
use cloud_route_manager.Base.{
  ◌≡◌, refl, ◌∙◌, sym, Text, text_eq, Bool, false, ◌||◌, List, [], ◌∷◌, ◌++◌, arith, ◌==◌, contains,
  All, Result, ok, err,
}
use cloud_route_manager.Base.Strings.{split}
use cloud_route_manager.Netip.{Prefix, prefix_eq}
use cloud_route_manager.Routes.{Parser, parse_one, step, parse_tokens, parse_lines, line_tokens}
use cloud_route_manager.Routes.Sets.{IsValid, add-IsValid, add-All, contains-add}

-- The tokens of a text, line after line.
tokens_of : List Text → List Text
tokens_of [] = []
tokens_of (l ∷ ls) = line_tokens l ++ tokens_of ls

unfoldable pub tokens : Text → List Text
unfolding tokens_of
tokens raw = tokens_of (split b'\n' raw)

abbrev denotes : Result Prefix → Prefix → Bool
denotes (ok p) a = p == a
denotes (err e) a = false

-- Whether one of the tokens denotes the prefix.
abbrev pub denoted : List Text → Prefix → Bool
denoted [] a = false
denoted (t ∷ ts) a = denotes (parse_one t) a || denoted ts a

abbrev onto_rejected : Text → Result Prefix → List Text → List Text
onto_rejected t (ok p) ts = ts
onto_rejected t (err e) ts = t ∷ ts

-- The tokens that denote no prefix, in their order.
abbrev pub rejected : List Text → List Text
rejected [] = []
rejected (t ∷ ts) = onto_rejected t (parse_one t) (rejected ts)

parse_tokens-append :
    (ts us : List Text) (st : Parser)
    → parse_tokens (ts ++ us) st ≡ parse_tokens us (parse_tokens ts st)
unfolding parse_tokens
parse_tokens-append [] us st = refl
parse_tokens-append (t ∷ ts) us st = parse_tokens-append ts us _

parse_lines-tokens_of :
    (ls : List Text) (st : Parser) → parse_lines ls st ≡ parse_tokens (tokens_of ls) st
unfolding parse_lines tokens_of parse_tokens
parse_lines-tokens_of [] st = refl
parse_lines-tokens_of (l ∷ ls) st =
    parse_lines-tokens_of ls _ ∙ sym (parse_tokens-append (line_tokens l) (tokens_of ls) st)

pub parse_lines-tokens :
    (raw : Text) (st : Parser) → parse_lines (split b'\n' raw) st ≡ parse_tokens (tokens raw) st
unfolding tokens
parse_lines-tokens raw st = parse_lines-tokens_of (split b'\n' raw) st

step-IsValid :
    (t : Text) (r : Result Prefix) (st : Parser) → IsValid st.set → IsValid (step t r st).set
unfolding step
step-IsValid t (err e) st v = v
step-IsValid t (ok p) st v = add-IsValid p st.set v

pub parse_tokens-IsValid :
    (ts : List Text) (st : Parser) → IsValid st.set → IsValid (parse_tokens ts st).set
unfolding parse_tokens
parse_tokens-IsValid [] st v = v
parse_tokens-IsValid (t ∷ ts) st v = parse_tokens-IsValid ts _ (step-IsValid t (parse_one t) st v)

contains-step :
    (t : Text) (r : Result Prefix) (st : Parser) (a : Prefix)
    → IsValid st.set
    → contains (step t r st).set.items a ≡ (denotes r a || contains st.set.items a)
unfolding step
contains-step t (err e) st a v = refl
contains-step t (ok p) st a v = contains-add p st.set a v

pub contains-parse_tokens :
    (ts : List Text) (st : Parser) (a : Prefix)
    → IsValid st.set
    → contains (parse_tokens ts st).set.items a ≡ (denoted ts a || contains st.set.items a)
unfolding parse_tokens
contains-parse_tokens [] st a v = refl
contains-parse_tokens (t ∷ ts) st a v = ground (
  arith,
  contains-parse_tokens ts (step t (parse_one t) st) a (step-IsValid t (parse_one t) st v),
  contains-step t (parse_one t) st a v,
)

bad-step :
    (t : Text) (r : Result Prefix) (st : Parser) (ts : List Text)
    → (step t r st).bad ++ ts ≡ st.bad ++ onto_rejected t r ts
unfolding step
bad-step t (err e) st ts = append_assoc st.bad (t ∷ []) ts
bad-step t (ok p) st ts = refl

pub bad-parse_tokens :
    (ts : List Text) (st : Parser) → (parse_tokens ts st).bad ≡ st.bad ++ rejected ts
unfolding parse_tokens
bad-parse_tokens [] st = sym (append-nil st.bad)
bad-parse_tokens (t ∷ ts) st = bad-parse_tokens ts _ ∙ bad-step t (parse_one t) st (rejected ts)

-- What holds of every prefix that a token denotes holds of every prefix that is collected.
module _ (P : Prefix → Type 0) (of_token : (t : Text) (p : Prefix) → parse_one t ≡ ok p → P p) where
  step-All :
      (t : Text) (r : Result Prefix) (st : Parser)
      → parse_one t ≡ r
      → All P st.set.items
      → All P (step t r st).set.items
  unfolding step
  step-All t (err e) st h k = k
  step-All t (ok p) st h k = add-All P p st.set (of_token t p h) k

  pub parse_tokens-All :
      (ts : List Text) (st : Parser) → All P st.set.items → All P (parse_tokens ts st).set.items
  unfolding parse_tokens
  parse_tokens-All [] st k = k
  parse_tokens-All (t ∷ ts) st k = parse_tokens-All ts _ (step-All t (parse_one t) st refl k)

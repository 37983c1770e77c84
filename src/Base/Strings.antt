-- ===== src/Base/Strings.antt =====
-- Go's `strings` package, over code points: what the program calls.
use Prim.Native.Nat.{ℕ, ◌+◌}
use mathlib.Core.Bool.{Bool, true, false, ◌&&◌, ◌||◌}
use mathlib.Core.List.{List, [], ◌∷◌, ◌++◌, reverse, map}
use mathlib.Core.Path.{◌≡◌, refl, ap, ◌∙◌}
use package.cloud_route_manager.Base.Lists.{All}
use package.cloud_route_manager.Base.Tests.{Text, ◌=ℕ◌, leb, if◌then◌else◌, ◌==◌, text_eq}

-- `unicode.IsSpace`
unfoldable pub is_space : ℕ → Bool
is_space c =
    (leb 0x9 c && leb c 0xd)
    || c =ℕ 0x20
    || c =ℕ 0x85
    || c =ℕ 0xa0
    || c =ℕ 0x1680
    || (leb 0x2000 c && leb c 0x200a)
    || c =ℕ 0x2028
    || c =ℕ 0x2029
    || c =ℕ 0x202f
    || c =ℕ 0x205f
    || c =ℕ 0x3000

-- `strings.TrimLeftFunc`, `strings.TrimRightFunc`
unfoldable pub trim_left : (ℕ → Bool) → Text → Text
trim_left p [] = []
trim_left p (c ∷ s) = if p c then trim_left p s else c ∷ s

unfoldable pub trim_right : (ℕ → Bool) → Text → Text
trim_right p [] = []
trim_right p (c ∷ s) = elim (trim_right p s) [ [] ↦ if p c then [] else c ∷ [] | d ∷ r ↦ c ∷ d ∷ r ]

-- `strings.TrimSpace`
unfoldable pub trim_space : Text → Text
unfolding trim_left trim_right is_space
trim_space s = trim_right is_space (trim_left is_space s)

-- Puts a character before the first piece of a split.
abbrev pub onto_first : ℕ → List Text → List Text
onto_first c [] = (c ∷ []) ∷ []
onto_first c (w ∷ ws) = (c ∷ w) ∷ ws

-- `strings.SplitSeq(s, "c")`, for a separator of one character.
unfoldable pub split : ℕ → Text → List Text
split sep [] = [] ∷ []
split sep (c ∷ s) = let rest = split sep s in if c =ℕ sep then [] ∷ rest else onto_first c rest

-- `strings.FieldsFunc`: the maximal runs of characters off the separators. `word` is what the current
-- field has so far, in reverse; it is empty between fields.
unfoldable pub fields_loop : (ℕ → Bool) → Text → Text → List Text
fields_loop p [] [] = []
fields_loop p (w ∷ word) [] = reverse (w ∷ word) ∷ []
fields_loop p [] (c ∷ s) = fields_loop p (if p c then [] else c ∷ []) s
fields_loop p (w ∷ word) (c ∷ s) = elim (p c) [
  | true ↦ reverse (w ∷ word) ∷ fields_loop p [] s
  | false ↦ fields_loop p (c ∷ w ∷ word) s
]

unfoldable pub fields_func : (ℕ → Bool) → Text → List Text
unfolding fields_loop
fields_func p s = fields_loop p [] s

-- `strings.Fields`
unfoldable pub fields : Text → List Text
unfolding fields_func is_space
fields s = fields_func is_space s

unfoldable pub has_prefix : Text → Text → Bool
has_prefix s [] = true
has_prefix [] (d ∷ pre) = false
has_prefix (c ∷ s) (d ∷ pre) = c =ℕ d && has_prefix s pre

-- `if i := strings.Index(s, sub); i >= 0 { s = s[:i] }`
unfoldable pub before : Text → Text → Text
unfolding has_prefix
before sub [] = []
before sub (c ∷ s) = if has_prefix (c ∷ s) sub then [] else c ∷ before sub s

-- `strings.ContainsRune`, and `strings.Contains` for a text of one character.
unfoldable pub has_char : ℕ → Text → Bool
has_char d [] = false
has_char d (c ∷ s) = c =ℕ d || has_char d s

-- `strings.TrimSuffix` and `strings.TrimPrefix`, for one character.
unfoldable pub trim_suffix : ℕ → Text → Text
trim_suffix d [] = []
trim_suffix d (c ∷ []) = if c =ℕ d then [] else c ∷ []
trim_suffix d (c ∷ b ∷ s) = c ∷ trim_suffix d (b ∷ s)

unfoldable pub trim_prefix : ℕ → Text → Text
trim_prefix d [] = []
trim_prefix d (c ∷ s) = if c =ℕ d then s else c ∷ s

-- `strings.Join`
unfoldable pub join_texts : Text → List Text → Text
join_texts sep [] = []
join_texts sep (w ∷ []) = w
join_texts sep (w ∷ v ∷ ws) = w ++ (sep ++ join_texts sep (v ∷ ws))

-- `unicode.ToLower`, where the result is ASCII: the Kelvin sign and the dotted capital I have ASCII
-- lower case letters. Other letters are kept, since the program compares the result with ASCII words.
unfoldable pub to_lower_char : ℕ → ℕ
to_lower_char c =
    if leb b'A' c && leb c b'Z'
    then c + 32
    else if c =ℕ 0x212a
    then b'k'
    else if c =ℕ 0x130
    then b'i'
    else c

-- `strings.ToLower`
unfoldable pub to_lower : Text → Text
unfolding to_lower_char
to_lower = map to_lower_char

-- The ASCII letter that `unicode.SimpleFold` puts in one class with `c`, in lower case.
unfoldable pub fold_char : ℕ → ℕ
fold_char c =
    if leb b'A' c && leb c b'Z'
    then c + 32
    else if c =ℕ 0x212a
    then b'k'
    else if c =ℕ 0x17f
    then b's'
    else c

-- `strings.EqualFold`, where one side is ASCII.
unfoldable pub equal_fold : Text → Text → Bool
unfolding fold_char text_eq
equal_fold s t = map fold_char s == map fold_char t

trim_left-none : (p : ℕ → Bool) (s : Text) → All (λ c. p c ≡ false) s → trim_left p s ≡ s
unfolding trim_left
trim_left-none p [] h = refl
trim_left-none p (c ∷ s) (h, hs) = rw (h) refl

trim_right-none : (p : ℕ → Bool) (s : Text) → All (λ c. p c ≡ false) s → trim_right p s ≡ s
unfolding trim_right
trim_right-none p [] h = refl
trim_right-none p (c ∷ []) (h, hs) = rw (h) refl
trim_right-none p (c ∷ d ∷ s) (h, hs) = rw (trim_right, trim_right-none p (d ∷ s) hs) refl

-- A text with no space has nothing to trim.
pub trim_space-none : (s : Text) → All (λ c. is_space c ≡ false) s → trim_space s ≡ s
unfolding trim_space
trim_space-none s h =
    ap (trim_right is_space) (trim_left-none is_space s h) ∙ trim_right-none is_space s h

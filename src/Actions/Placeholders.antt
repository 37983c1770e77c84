-- ===== src/Actions/Placeholders.antt =====
-- internal/actions/actions.go: what `Expand` does to a template.
use cloud_route_manager.Base.{
  ◌||◌, if◌then◌else◌, ◌≡◌, refl, ap, sym, ◌∙◌, ℕ, ◌+◌, ◌≤◌, arith, Text, codes, true, false, ◌=ℕ◌,
  [], ◌∷◌, ◌++◌, length, length-append, is_empty, none, some, All, text_eq, ◌==◌, ==_iff,
  Bool-cases, inl, inr,
}
use mathlib.Core.List.{append_assoc}
use cloud_route_manager.Base.Decimal.{is_digit, itoa}
use cloud_route_manager.Base.Strings.{join_texts}
use cloud_route_manager.Base.Maps.{Map, lookup}
use cloud_route_manager.Actions.{
  Vars, substitutions, before_brace, closed, braced, get_shell_name, value_of, os_expand,
  substitute, or_kept, expand,
}

abbrev pub IsPlain : Text → Type 0
IsPlain s = All (λ c. (c =ℕ b'$') ≡ false) s

-- A name that a pair of braces can hold.
abbrev pub IsName : Text → Type 0
IsName s = (is_empty s ≡ false) × All (λ c. (c =ℕ b'}') ≡ false) s

module _ (f : Text → Text) where
  os_expand-plain :
      (pre rest : Text) → IsPlain pre → os_expand f 0 (pre ++ rest) ≡ pre ++ os_expand f 0 rest
  unfolding os_expand
  os_expand-plain [] rest h = refl
  os_expand-plain (c ∷ []) [] (h, hs) = refl
  os_expand-plain (c ∷ []) (d ∷ rest) (h, hs) = rw (os_expand, h) refl
  os_expand-plain (c ∷ d ∷ pre) rest (h, hs) =
      rw (os_expand, h) (ap (λ s. c ∷ s) (os_expand-plain (d ∷ pre) rest hs))

  os_expand-skip : (pre rest : Text) → os_expand f (length pre) (pre ++ rest) ≡ os_expand f 0 rest
  unfolding os_expand
  os_expand-skip [] rest = refl
  os_expand-skip (c ∷ pre) rest = os_expand-skip pre rest

  before_brace-name :
      (name rest : Text)
      → All (λ c. (c =ℕ b'}') ≡ false) name
      → before_brace (name ++ (b'}' ∷ rest)) ≡ some name
  unfolding before_brace
  before_brace-name [] rest h = refl
  before_brace-name (c ∷ name) rest (h, hs) = rw (h, before_brace-name name rest hs) refl

  braced-name :
      (name rest : Text) → IsName name → braced (name ++ (b'}' ∷ rest)) ≡ (name, length name + 2)
  braced-name [] rest (h, hs) = cc h
  braced-name (c ∷ []) rest (h, hs) =
      let b = ap closed (before_brace-name (c ∷ []) rest hs) in ground (arith, b)
  braced-name (c ∷ d ∷ name) rest (h, (hc, (hd, hs))) =
      let b = ap closed (before_brace-name (c ∷ d ∷ name) rest (hc, (hd, hs))) in
      ground (arith, b, hd)

  value_of-name : (name : Text) (w : ℕ) → is_empty name ≡ false → value_of f (name, w) ≡ f name
  value_of-name [] w h = cc h
  value_of-name (c ∷ name) w h = refl

  get_shell_name-braced :
      (name rest : Text)
      → IsName name
      → get_shell_name (b'{' ∷ (name ++ (b'}' ∷ rest))) ≡ (name, length name + 2)
  unfolding get_shell_name
  get_shell_name-braced name rest h = braced-name name rest h

  os_expand-dollar :
      (s : Text)
      → is_empty s ≡ false
      → os_expand f 0 (b'$' ∷ s)
        ≡ value_of f (get_shell_name s) ++ os_expand f (get_shell_name s).1 s
  unfolding os_expand
  os_expand-dollar [] h = cc h
  os_expand-dollar (c ∷ s) h = refl

  brace_text :
      (name rest : Text) → b'{' ∷ (name ++ (b'}' ∷ rest)) ≡ (b'{' ∷ (name ++ codes "}")) ++ rest
  brace_text name rest = ap (λ s. b'{' ∷ s) (sym (append_assoc name (codes "}") rest))

  count : (name : Text) → length name + 2 ≡ length (b'{' ∷ (name ++ codes "}"))
  count name = omega (arith, length-append name (codes "}"))

  os_expand-braced :
      (name rest : Text)
      → IsName name
      → os_expand f 0 (b'$' ∷ b'{' ∷ (name ++ (b'}' ∷ rest))) ≡ f name ++ os_expand f 0 rest
  os_expand-braced name rest h =
      let whole = b'{' ∷ (name ++ (b'}' ∷ rest)) in
      let e = get_shell_name-braced name rest h in
      os_expand-dollar whole refl
      ∙ (ap (λ p. value_of f p ++ os_expand f p.1 whole) e
          ∙ rw (value_of-name name (length name + 2) h.0) (
              ap (λ s. f name ++ s)
                (ap (λ k. os_expand f k whole) (count name)
                  ∙ (ap (os_expand f (length (b'{' ∷ (name ++ codes "}")))) (brace_text name rest)
                      ∙ os_expand-skip (b'{' ∷ (name ++ codes "}")) rest))))

-- What a placeholder stands for, name by name; an unknown one is kept as it is.
abbrev pub placeholder : Vars → Text → Text
placeholder vars name =
    if codes "routes" == name
    then join_texts (codes ",") vars.routes
    else if codes "ip-address" == name || codes "ip_address" == name
    then vars.ip_address
    else if codes "interface" == name
    then vars.interface
    else if codes "cloud" == name
    then vars.cloud
    else if codes "routes-count" == name
    then itoa (length vars.routes)
    else codes "${" ++ (name ++ codes "}")

substitute-placeholder : (vars : Vars) (name : Text) → substitute vars name ≡ placeholder vars name
unfolding substitute lookup
substitute-placeholder vars name = ground arith

-- In a template that starts with a text without dollar signs and a placeholder, whose name is not empty
-- and has no closing brace, the text is kept, and the placeholder replaced: `routes` by the routes with
-- commas between them, `routes-count` by their number, `ip-address` and `ip_address` by the address,
-- `interface` and `cloud` by those, and any other name by the placeholder itself. What follows is
-- expanded on its own.
pub expand-braced :
    (pre name rest : Text) (vars : Vars)
    → IsPlain pre
    → IsName name
    → expand (pre ++ (codes "${" ++ (name ++ (codes "}" ++ rest)))) vars
      ≡ pre ++ (placeholder vars name ++ expand rest vars)
unfolding expand
expand-braced pre name rest vars h k =
    os_expand-plain (substitute vars) pre _ h
    ∙ ap (λ s. pre ++ s)
        (os_expand-braced (substitute vars) name rest k
          ∙ ap (λ s. s ++ os_expand (substitute vars) 0 rest) (substitute-placeholder vars name))

get_shell_name-digit :
    (d : ℕ) (rest : Text) → is_digit d ≡ true → get_shell_name (d ∷ rest) ≡ (d ∷ [], 1)
unfolding get_shell_name
get_shell_name-digit d rest k = ground (arith, k)

lookup_letter :
    {V : Type 0} (d : ℕ) (m : Map Text V) → All (λ p. 2 ≤ length p.0) m → lookup (d ∷ []) m ≡ none
unfolding lookup
lookup_letter d [] h = refl
lookup_letter d ((k, v) ∷ m) (h, hs) = elim (Bool-cases (k == (d ∷ []))) [
  | inl e ↦ absurd (omega (arith, h, ap length ((==_iff k (d ∷ [])).0 e)))
  | inr e ↦ rw (e) (lookup_letter d m hs)
]

substitute-letter : (d : ℕ) (vars : Vars) → substitute vars (d ∷ []) ≡ codes "${" ++ (d ∷ codes "}")
unfolding substitute
substitute-letter d vars =
    ap (or_kept (d ∷ [])) (lookup_letter d (substitutions vars) (ground arith))

-- Behind a text without dollar signs, a dollar sign and a digit, which are no placeholder of the program,
-- are not kept: braces are put around the digit.
pub expand-digit :
    (pre rest : Text) (d : ℕ) (vars : Vars)
    → IsPlain pre
    → is_digit d ≡ true
    → expand (pre ++ (b'$' ∷ d ∷ rest)) vars
      ≡ pre ++ (codes "${" ++ (d ∷ (codes "}" ++ expand rest vars)))
unfolding expand substitute
expand-digit pre rest d vars h k =
    os_expand-plain (substitute vars) pre _ h
    ∙ ap (λ s. pre ++ s)
        (os_expand-dollar (substitute vars) (d ∷ rest) refl
          ∙ (ap (λ p. value_of (substitute vars) p ++ os_expand (substitute vars) p.1 (d ∷ rest))
                (get_shell_name-digit d rest k)
              ∙ (ap (λ v. v ++ os_expand (substitute vars) 1 (d ∷ rest)) (substitute-letter d vars)
                  ∙ ap (λ s. codes "${" ++ (d ∷ (codes "}" ++ s)))
                      (os_expand-skip (substitute vars) (d ∷ []) rest))))

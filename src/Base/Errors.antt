-- ===== src/Base/Errors.antt =====
-- Go's errors, and its results that are a value or an error.
use Prim.Native.String.{String}
use mathlib.Core.Path.{◌≡◌, refl}
use mathlib.Core.Logic.{◌⊎◌, inl, inr}
use mathlib.Core.Option.{Option, none, some}
use mathlib.Core.List.{List, [], ◌∷◌}
use package.cloud_route_manager.Base.Tests.{Text}

-- An error is kept as what builds it: the format and its arguments, with the wrapped error of `%w`.
-- `join_last` and `join_more` are the list that `errors.Join` keeps.
pub data Error : Type 0 where
  errorf : String → List Text → Error
  wrapf : String → List Text → Error → Error
  join_last : Error → Error
  join_more : Error → Error → Error

-- `errors.Join(errs...)`, for errors that are not nil.
abbrev pub join_list : Error → List Error → Error
join_list e [] = join_last e
join_list e (f ∷ errs) = join_more e (join_list f errs)

abbrev pub join : List Error → Option Error
join [] = none
join (e ∷ errs) = some (join_list e errs)

abbrev pub to_list {ℓ} : {A : Type ℓ} → Option A → List A
to_list none = []
to_list (some a) = a ∷ []

pub data Result {ℓ} (A : Type ℓ) : Type ℓ where
  ok : A → Result A
  err : Error → Result A

infixl 5 ◌>>=◌
abbrev pub ◌>>=◌ {ℓ κ} : {A : Type ℓ} {B : Type κ} → Result A → (A → Result B) → Result B
ok a >>= f = f a
err e >>= f = err e

abbrev pub wrap_err {ℓ} : {A : Type ℓ} → String → List Text → Result A → Result A
wrap_err f args (ok a) = ok a
wrap_err f args (err e) = err (wrapf f args e)

-- A result of a package that is not modelled and reports only whether it failed.
abbrev pub from_option {ℓ} : {A : Type ℓ} → Error → Option A → Result A
from_option e none = err e
from_option e (some a) = ok a

pub ok-injective {ℓ} : {A : Type ℓ} {a b : A} → ok a ≡ ok b → a ≡ b
ok-injective h = cc h

pub Result-cases {ℓ} :
    {A : Type ℓ} (r : Result A) → ((a : A) × (r ≡ ok a)) ⊎ ((e : Error) × (r ≡ err e))
Result-cases (ok a) = inl (a, refl)
Result-cases (err e) = inr (e, refl)

pub wrap_err-ok {ℓ} :
    {A : Type ℓ} (f : String) (args : List Text) (r : Result A) (a : A)
    → wrap_err f args r ≡ ok a
    → r ≡ ok a
wrap_err-ok f args (ok b) a h = h
wrap_err-ok f args (err e) a h = cc h

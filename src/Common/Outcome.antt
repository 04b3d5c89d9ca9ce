-- ===== src/Common/Outcome.antt =====
-- A run of code that may panic (`assert!`, `unwrap` on a missing value).
use mathlib.Core.Path.{◌≡◌, refl}
use mathlib.Core.Logic.{◌⊎◌, inl, inr}
use mathlib.Core.Bool.{Bool, true, false}
use mathlib.Core.Option.{Option, none, some}
use mathlib.Core.List.{List, [], ◌∷◌}

pub data Outcome {ℓ} (A : Type ℓ) : Type ℓ where
  returned : A → Outcome A
  panicked : Outcome A

infixl 5 ◌>>=◌ ◌>>◌
abbrev pub ◌>>=◌ {ℓ κ} : {A : Type ℓ} {B : Type κ} → Outcome A → (A → Outcome B) → Outcome B
returned a >>= f = f a
panicked >>= f = panicked

abbrev pub ◌>>◌ {ℓ} : {B : Type ℓ} → Outcome (Unit {0}) → Outcome B → Outcome B
m >> k = m >>= λ _. k

-- `assert!(b)`
abbrev pub assert : Bool → Outcome (Unit {0})
assert true = returned tt
assert false = panicked

-- `Result` of Rust, the error first, and its `?`.
pub data Result (E A : Type 0) : Type 0 where
  ok : A → Result E A
  err : E → Result E A

infixl 5 ◌>>?◌
abbrev pub ◌>>?◌ : {E A B : Type 0} → Result E A → (A → Result E B) → Result E B
ok a >>? f = f a
err e >>? f = err e

-- `Option::ok_or`
abbrev pub ok_or : {E A : Type 0} → E → Option A → Result E A
ok_or e none = err e
ok_or e (some a) = ok a

-- `filter_map` that pushes the errors and keeps the rest
abbrev pub keep_ok : {A E B : Type 0} → (A → Result E B) → List A → List B × List E
keep_ok f [] = ([], [])
keep_ok f (x ∷ xs) =
    let rest = keep_ok f xs in
    elim (f x) [ ok y ↦ (y ∷ rest.0, rest.1) | err e ↦ (rest.0, e ∷ rest.1) ]

module _ {E A : Type 0} where
  pub Result-cases : (r : Result E A) → ((a : A) × (r ≡ ok a)) ⊎ ((e : E) × (r ≡ err e))
  Result-cases (ok a) = inl (a, refl)
  Result-cases (err e) = inr (e, refl)

-- What holds of a result that is no error; it is shown of a chain link by link.
abbrev pub IfOk : {E B : Type 0} → (B → Type 0) → Result E B → Type 0
IfOk P (ok b) = P b
IfOk P (err e) = Unit

pub IfOk-bind :
    {E A B : Type 0} (P : B → Type 0) (r : Result E A) (f : A → Result E B)
    → ((a : A) → r ≡ ok a → IfOk P (f a))
    → IfOk P (r >>? f)
IfOk-bind P (ok a) f h = h a refl
IfOk-bind P (err e) f h = tt

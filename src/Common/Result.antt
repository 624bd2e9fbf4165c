-- ===== src/Common/Result.antt =====
-- A call that may raise returns a `Result`. `http` is FastAPI's `HTTPException` with its status
-- code, `multiple_results_found` is what SQLAlchemy raises where a query for one row finds two,
-- `value_error` and `zero_division` are Python's, and `external` is any failure of a service or a third-party library.
use mathlib.Core.Path.{◌≡◌, refl}
use mathlib.Core.Logic.{◌⊎◌, inl, inr}
use mathlib.Core.Option.{Option, none, some}
use mathlib.Core.List.{List, [], ◌∷◌}
use Prim.Native.Nat.{ℕ}

pub data Error : Type 0 where
  http : ℕ → Error
  multiple_results_found value_error zero_division external : Error

pub data Result {ℓ} (T : Type ℓ) : Type ℓ where
  err : Error → Result T
  ok : T → Result T

-- A statement after a call runs if the call returned.
infixl 5 ◌>>=◌
abbrev pub ◌>>=◌ {ℓ κ} : {T : Type ℓ} {U : Type κ} → Result T → (T → Result U) → Result U
call >>= rest = elim call [ err e ↦ err e | ok t ↦ rest t ]

-- `result.scalar_one_or_none()` over the rows that a query found.
abbrev pub scalar_one_or_none {ℓ} : {A : Type ℓ} → List A → Result (Option A)
scalar_one_or_none [] = ok none
scalar_one_or_none (x ∷ []) = ok (some x)
scalar_one_or_none (x ∷ y ∷ xs) = err multiple_results_found

-- Statements that return a value began with a call that returned one.
pub first_returned {ℓ κ} :
    {T : Type ℓ} {U : Type κ} {u : U} (rest : T → Result U) (call : Result T)
    → (call >>= rest) ≡ ok u
    → (t : T) × (rest t ≡ ok u) × (call ≡ ok t)
first_returned rest (err e) h = cc
first_returned rest (ok t) h = (t, h, refl)

pub Result-cases {ℓ} :
    {T : Type ℓ} (r : Result T) → ((e : Error) × (r ≡ err e)) ⊎ ((t : T) × (r ≡ ok t))
Result-cases (err e) = inl (e, refl)
Result-cases (ok t) = inr (t, refl)

-- ===== src/Prelude/Results.antt =====
-- Go's `(value, error)` results. An error keeps the one distinction that the program makes: whether
-- it is the API server's "not found".
use Prim.Native.String.{String, ◌++◌}
use mathlib.Core.Path.{◌≡◌, refl}
use mathlib.Core.Logic.{◌⊎◌, inl, inr}

pub data Error : Type 0 where
  not_found : String → Error
  failure : String → Error

pub data Result {ℓ} (A : Type ℓ) : Type ℓ where
  ok : A → Result A
  err : Error → Result A

infixl 5 ◌>>=◌
abbrev pub ◌>>=◌ {ℓ κ} : {A : Type ℓ} {B : Type κ} → Result A → (A → Result B) → Result B
ok a >>= f = f a
err e >>= f = err e

-- `fmt.Errorf("…: %w", err)` keeps what the error is.
unfoldable pub wrap : String → Error → Error
wrap context (not_found m) = not_found (context ++ m)
wrap context (failure m) = failure (context ++ m)

-- `client.IgnoreNotFound`, as the error that is returned.
unfoldable pub ignore_not_found : Error → Result (Unit {0})
ignore_not_found (not_found m) = ok tt
ignore_not_found (failure m) = err (failure m)

pub Result-cases {ℓ} :
    {A : Type ℓ} (r : Result A) → ((e : Error) × (r ≡ err e)) ⊎ ((a : A) × (r ≡ ok a))
Result-cases (ok a) = inr (a, refl)
Result-cases (err e) = inl (e, refl)

-- The value of a result, with a default for an error.
abbrev pub value_or {ℓ} : {A : Type ℓ} → A → Result A → A
value_or d (ok a) = a
value_or d (err e) = d

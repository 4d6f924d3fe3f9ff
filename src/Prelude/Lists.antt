-- ===== src/Prelude/Lists.antt =====
-- Lists measured by native numbers, and predicates on all their items.
use Prim.Native.Nat.{ℕ, suc}
use mathlib.Core.Bool.{Bool, true, false, ◌&&◌, ◌||◌}
use mathlib.Core.Path.{◌≡◌, subst}
use mathlib.Core.Logic.{◌⊎◌, inl, inr}
use mathlib.Core.List.{List, [], ◌∷◌, ◌++◌}

module _ {ℓ} {A : Type ℓ} where
  abbrev pub length : List A → ℕ
  length [] = 0
  length (x ∷ xs) = suc (length xs)

  abbrev pub any : (A → Bool) → List A → Bool
  any p [] = false
  any p (x ∷ xs) = p x || any p xs

  abbrev pub all : (A → Bool) → List A → Bool
  all p [] = true
  all p (x ∷ xs) = p x && all p xs

  -- `xs = append(xs, x)`
  abbrev pub push : List A → A → List A
  push xs x = xs ++ x ∷ []

module _ {ℓ κ} {A : Type ℓ} (P : A → Type κ) where
  abbrev pub All : List A → Type κ
  All [] = Unit
  All (x ∷ xs) = P x × All xs

  pub All-append : (xs ys : List A) → All xs → All ys → All (xs ++ ys)
  All-append [] ys h k = k
  All-append (x ∷ xs) ys (p, h) k = (p, All-append xs ys h k)

module _ {A : Type 0} where
  -- An item of a list, by its place.
  abbrev pub IsIn : A → List A → Type 0
  IsIn x [] = ⊥
  IsIn x (y ∷ ys) = (y ≡ x) ⊎ IsIn x ys

  pub IsIn-append_left : (x : A) (xs ys : List A) → IsIn x xs → IsIn x (xs ++ ys)
  IsIn-append_left x [] ys h = elim h [ ]
  IsIn-append_left x (y ∷ xs) ys (inl e) = inl e
  IsIn-append_left x (y ∷ xs) ys (inr h) = inr (IsIn-append_left x xs ys h)

  pub IsIn-append_right : (x : A) (xs ys : List A) → IsIn x ys → IsIn x (xs ++ ys)
  IsIn-append_right x [] ys h = h
  IsIn-append_right x (y ∷ xs) ys h = inr (IsIn-append_right x xs ys h)

  pub IsIn-append_cases : (x : A) (xs ys : List A) → IsIn x (xs ++ ys) → IsIn x xs ⊎ IsIn x ys
  IsIn-append_cases x [] ys h = inr h
  IsIn-append_cases x (y ∷ xs) ys (inl e) = inl (inl e)
  IsIn-append_cases x (y ∷ xs) ys (inr h) = elim (IsIn-append_cases x xs ys h) [
    | inl left ↦ inl (inr left)
    | inr right ↦ inr right
  ]

  -- A list with one item more in its middle has that item, and the others.
  pub IsIn-middle : (x y : A) (xs ys : List A) → IsIn x (xs ++ ys) → IsIn x (xs ++ y ∷ ys)
  IsIn-middle x y [] ys h = inr h
  IsIn-middle x y (z ∷ xs) ys (inl e) = inl e
  IsIn-middle x y (z ∷ xs) ys (inr h) = inr (IsIn-middle x y xs ys h)

  pub IsIn-middle_cases :
      (x y : A) (xs ys : List A) → IsIn x (xs ++ y ∷ ys) → (y ≡ x) ⊎ IsIn x (xs ++ ys)
  IsIn-middle_cases x y [] ys h = h
  IsIn-middle_cases x y (z ∷ xs) ys (inl e) = inr (inl e)
  IsIn-middle_cases x y (z ∷ xs) ys (inr h) = elim (IsIn-middle_cases x y xs ys h) [
    | inl e ↦ inl e
    | inr rest ↦ inr (inr rest)
  ]

  pub All-IsIn {κ} : (P : A → Type κ) (xs : List A) (x : A) → All P xs → IsIn x xs → P x
  All-IsIn P [] x h m = elim m [ ]
  All-IsIn P (y ∷ ys) x (p, h) (inl e) = subst P e p
  All-IsIn P (y ∷ ys) x (p, h) (inr m) = All-IsIn P ys x h m

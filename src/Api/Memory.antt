-- ===== src/Api/Memory.antt =====
-- Go's memory as api/v1alpha1/zz_generated.deepcopy.go uses it: a list of cells, addressed by their place,
-- to which `new` and `make` add one. A pointer, a slice and a map are the address of a cell or nil; a cell
-- of a slice holds all of its array.
use fluxgate_operator.Prelude.{
  ℕ, zero, suc, ◌+◌, ◌≤◌, ◌<◌, List, [], ◌∷◌, push, length, Option, none, some, ◌≡◌, ◌≢◌, refl, ap,
  arith,
}

-- How a value of a type lies in a cell.
pub record Kind (C A : Type 0) : Type 0 where
  pub make : A → C
  pub read : C → Option A
  pub read-make : (a : A) → read (make a) ≡ some a

module _ {C : Type 0} where
  unfoldable pub at : ℕ → List C → Option C
  at a [] = none
  at zero (c ∷ m) = some c
  at (suc a) (c ∷ m) = at a m

  -- A store into a cell that is there.
  unfoldable pub write : ℕ → C → List C → List C
  write a new [] = []
  write zero new (c ∷ m) = new ∷ m
  write (suc a) new (c ∷ m) = c ∷ write a new m

  -- `if in != nil { *out = new(T); … }`: what the address leads to is copied into a new cell. Of an
  -- address that leads nowhere Go has none; it is kept.
  unfoldable pub copy_pointer :
      {A : Type 0} → Kind C A → (A → List C → A × List C) → Option ℕ → List C → Option ℕ × List C
  copy_pointer k into none m = (none, m)
  copy_pointer k into (some a) m = elim (at a m) [
    | none ↦ (some a, m)
    | some c ↦ elim (k.read c) [
      | none ↦ (some a, m)
      | some x ↦ let (y, m') = into x m in (some (length m'), push m' (k.make y))
    ]
  ]

  -- The loop over a slice.
  unfoldable pub copy_items :
      {A : Type 0} → (A → List C → A × List C) → List A → List C → List A × List C
  copy_items into [] m = ([], m)
  copy_items into (x ∷ xs) m =
      let (y, m') = into x m in let (ys, m'') = copy_items into xs m' in (y ∷ ys, m'')

  -- `*out = *in`, and `copy(*out, *in)`
  abbrev pub flat : {A : Type 0} → A → List C → A × List C
  flat x m = (x, m)

  -- All cells of one memory from an address on are in another, as they are.
  abbrev pub Agrees : ℕ → List C → List C → Type 0
  Agrees lo m m' = (a : ℕ) (c : C) → lo ≤ a → at a m ≡ some c → at a m' ≡ some c

  abbrev pub Extends : List C → List C → Type 0
  Extends m m' = (length m ≤ length m') × Agrees 0 m m'

  pub at-push_old : (a : ℕ) (m : List C) (c d : C) → at a m ≡ some c → at a (push m d) ≡ some c
  unfolding at
  at-push_old a [] c d h = cc
  at-push_old zero (x ∷ m) c d h = h
  at-push_old (suc a) (x ∷ m) c d h = at-push_old a m c d h

  pub at-push_new : (m : List C) (d : C) → at (length m) (push m d) ≡ some d
  unfolding at
  at-push_new [] d = refl
  at-push_new (x ∷ m) d = at-push_new m d

  pub length-push : (m : List C) (d : C) → length (push m d) ≡ length m + 1
  length-push [] d = omega arith
  length-push (x ∷ m) d = omega (arith, length-push m d)

  pub lt_of_at : (a : ℕ) (m : List C) (c : C) → at a m ≡ some c → a < length m
  unfolding at
  lt_of_at a [] c h = cc
  lt_of_at zero (x ∷ m) c h = omega arith
  lt_of_at (suc a) (x ∷ m) c h = omega (arith, lt_of_at a m c h)

  pub at-write_ne : (a b : ℕ) (new : C) (m : List C) → a ≢ b → at b (write a new m) ≡ at b m
  unfolding at write
  at-write_ne a b new [] h = refl
  at-write_ne zero zero new (x ∷ m) h = absurd (h refl)
  at-write_ne zero (suc b) new (x ∷ m) h = refl
  at-write_ne (suc a) zero new (x ∷ m) h = refl
  at-write_ne (suc a) (suc b) new (x ∷ m) h = at-write_ne a b new m (λ e. h (ap suc e))

  pub Extends-push : (m : List C) (d : C) → Extends m (push m d)
  Extends-push m d = (omega (arith, length-push m d), λ a c lo h. at-push_old a m c d h)

  pub Extends-trans : (m n o : List C) → Extends m n → Extends n o → Extends m o
  Extends-trans m n o (l, h) (l', h') = (omega arith, λ a c lo e. h' a c lo (h a c lo e))

  pub Extends-refl : (m : List C) → Extends m m
  Extends-refl m = (omega arith, λ a c lo h. h)

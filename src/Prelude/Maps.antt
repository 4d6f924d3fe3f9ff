-- ===== src/Prelude/Maps.antt =====
-- Go's maps with text keys, as association lists.
use Prim.Native.String.{String}
use mathlib.Core.Path.{◌≡◌, refl, ap, ◌∙◌}
use mathlib.Core.Bool.{false}
use mathlib.Core.Option.{Option, none, some}
use mathlib.Core.List.{List, [], ◌∷◌}
use native.Mathlib.Omega.{arith}
use text.Mathlib.Text.{◌==◌}
use text.Mathlib.TextEquality.{eq_iff}
use text.Mathlib.TextPositions.{eq_refl}
use fluxgate_operator.Prelude.Tests.{if◌then◌else◌}

-- Tests of texts for equality, as equations, with the arithmetic.
pub ruleset texts = (arith, eq_iff)

abbrev pub Dict {ℓ} : Type ℓ → Type ℓ
Dict V = List (String × V)

module _ {ℓ} {V : Type ℓ} where
  -- `v, ok := m[k]`
  unfoldable pub lookup : String → Dict V → Option V
  lookup k [] = none
  lookup k ((j, v) ∷ m) = if j == k then some v else lookup k m

  -- `m[k] = v`
  unfoldable pub insert : String → V → Dict V → Dict V
  insert key new [] = (key, new) ∷ []
  insert key new ((found, old) ∷ rest) =
      let later = insert key new rest in
      if found == key then (key, new) ∷ rest else (found, old) ∷ later

  -- `delete(m, k)`. Every entry of the key goes; a real map has at most one.
  unfoldable pub erase : String → Dict V → Dict V
  erase k [] = []
  erase k ((j, w) ∷ m) = let rest = erase k m in if j == k then rest else (j, w) ∷ rest

  abbrev pub NodupKeys : Dict V → Type ℓ
  NodupKeys [] = Unit
  NodupKeys ((k, v) ∷ m) = (lookup k m ≡ none) × NodupKeys m

  -- What a key has after a store under another or the same key.
  pub lookup-insert :
      (key other : String) (new : V) (entries : Dict V)
      → lookup other (insert key new entries)
        ≡ (if key == other then some new else lookup other entries)
  unfolding insert lookup
  lookup-insert key other new [] = refl
  lookup-insert key other new ((found, old) ∷ rest) =
      grind (texts, lookup-insert key other new rest)

  pub lookup-erase :
      (k j : String) (m : Dict V) → lookup j (erase k m) ≡ (if k == j then none else lookup j m)
  unfolding lookup erase
  lookup-erase k j [] = ground arith
  lookup-erase k j ((i, w) ∷ m) = grind (texts, lookup-erase k j m)

  pub insert-NodupKeys : (k : String) (v : V) (m : Dict V) → NodupKeys m → NodupKeys (insert k v m)
  unfolding insert lookup
  insert-NodupKeys k v [] _ = (refl, tt)
  insert-NodupKeys k v ((j, w) ∷ m) (fresh, u) =
      grind (texts, insert-NodupKeys k v m u, lookup-insert k j v m)

abbrev pub or_empty : Option String → String
or_empty none = ""
or_empty (some v) = v

-- `m[k]` of a map of texts: "" where the key is missing
unfoldable pub text_at : String → Dict String → String
text_at k m = or_empty (lookup k m)

pub text_at-insert_self : (k v : String) (m : Dict String) → text_at k (insert k v m) ≡ v
unfolding text_at
text_at-insert_self k v m = ap or_empty (lookup-insert k k v m) ∙ rw (eq_refl k)

pub text_at-insert_ne :
    (k j v : String) (m : Dict String) → (k == j) ≡ false → text_at j (insert k v m) ≡ text_at j m
unfolding text_at
text_at-insert_ne k j v m h = ap or_empty (lookup-insert k j v m) ∙ rw h

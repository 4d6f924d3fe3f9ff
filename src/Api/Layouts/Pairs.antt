-- ===== src/Api/Layouts/Pairs.antt =====
-- Layouts of structs: two parts, one copied after the other, and a struct seen as its parts.
use fluxgate_operator.Prelude.{ℕ, List, length, ◌≡◌}
use fluxgate_operator.Api.Memory.{Extends, Extends-trans}
use fluxgate_operator.Api.Layouts.{Layout, Agrees-of_Extends}

module _ {C A B V W : Type 0} (L : Layout C A V) (M : Layout C B W) where
  abbrev pub BothRead : List C → ℕ → A × B → V × W → Type 0
  BothRead m lo (x, y) (v, w) = L.reads m lo x v × M.reads m lo y w

  abbrev pub both_into : A × B → List C → (A × B) × List C
  both_into (x, y) m = let (x', m₁) = L.into x m in let (y', m₂) = M.into y m₁ in ((x', y'), m₂)

  pub BothRead-copies :
      (m : List C) (lo : ℕ) (p : A × B) (q : V × W)
      → BothRead m lo p q
      → Extends m (both_into p m).1 × BothRead (both_into p m).1 (length m) (both_into p m).0 q
  BothRead-copies m lo (x, y) (v, w) (h, g) =
      let (x', m₁) = L.into x m in
      let (y', m₂) = M.into y m₁ in
      let (e₁, r₁) = L.copies m lo x v h in
      let (e₂, r₂) = M.copies m₁ lo y w (M.agree m m₁ lo y w (Agrees-of_Extends lo m m₁ e₁) g) in
      (
        Extends-trans m m₁ m₂ e₁ e₂,
        (
          L.agree m₁ m₂ (length m) x' v (Agrees-of_Extends (length m) m₁ m₂ e₂) r₁,
          M.lower m₂ (length m) (length m₁) y' w e₁.0 r₂,
        ),
      )

  abbrev pub both : Layout C (A × B) (V × W)
  both = record {
    reads = BothRead;
    into = both_into;
    agree = λ m m' lo (x, y) (v, w) same (h, g).
        (L.agree m m' lo x v same h, M.agree m m' lo y w same g);
    lower = λ m lo hi (x, y) (v, w) le (h, g). (L.lower m lo hi x v le h, M.lower m lo hi y w le g);
    copies = BothRead-copies;
  }

-- A struct that is copied as its parts are.
module _ {C A B V W : Type 0} (L : Layout C B W) (parts : A → B) (values : V → W)
    (into : A → List C → A × List C)
    (same : (x : A) (m : List C) → L.into (parts x) m ≡ (parts (into x m).0, (into x m).1)) where
  pub struct-copies :
      (m : List C) (lo : ℕ) (x : A) (v : V)
      → L.reads m lo (parts x) (values v)
      → Extends m (into x m).1 × L.reads (into x m).1 (length m) (parts (into x m).0) (values v)
  struct-copies m lo x v h = rw (same x m) at (L.copies m lo (parts x) (values v) h)

  abbrev pub struct : Layout C A V
  struct = record {
    reads = λ m lo x v. L.reads m lo (parts x) (values v);
    into = into;
    agree = λ m m' lo x v. L.agree m m' lo (parts x) (values v);
    lower = λ m lo hi x v. L.lower m lo hi (parts x) (values v);
    copies = struct-copies;
  }

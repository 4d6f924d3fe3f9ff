-- ===== src/Api/Layouts.antt =====
-- What a value in memory stands for, and what makes a copy of it deep: the copy stands for the same, and
-- reads no cell that was there before.
pub mod Pairs
use fluxgate_operator.Prelude.{ℕ, ◌≤◌, List, [], ◌∷◌, push, length, Option, none, some, ◌≡◌, arith}
use fluxgate_operator.Api.Memory.{
  Kind, at, copy_pointer, copy_items, flat, Agrees, Extends, at-push_new, Extends-push,
  Extends-trans, Extends-refl,
}

-- `reads m lo x v`: in `m`, `x` stands for `v`, by cells from `lo` on only.
pub record Layout (C A V : Type 0) : Type 1 where
  pub reads : List C → ℕ → A → V → Type 0
  pub into : A → List C → A × List C
  pub agree :
      (m m' : List C) (lo : ℕ) (x : A) (v : V) → Agrees lo m m' → reads m lo x v → reads m' lo x v
  pub lower : (m : List C) (lo hi : ℕ) (x : A) (v : V) → lo ≤ hi → reads m hi x v → reads m lo x v
  pub copies :
      (m : List C) (lo : ℕ) (x : A) (v : V)
      → reads m lo x v
      → Extends m (into x m).1 × reads (into x m).1 (length m) (into x m).0 v

pub Agrees-of_Extends : {C : Type 0} (lo : ℕ) (m m' : List C) → Extends m m' → Agrees lo m m'
Agrees-of_Extends lo m m' (l, h) a c g e = h a c (omega arith) e

module _ {C : Type 0} where
  -- A value without addresses.
  abbrev pub plain : {A : Type 0} → Layout C A A
  plain = record {
    reads = λ m lo x v. x ≡ v;
    into = flat;
    agree = λ m m' lo x v same h. h;
    lower = λ m lo hi x v l h. h;
    copies = λ m lo x v h. (Extends-refl m, h);
  }

  module _ {A V W : Type 0} (k : Kind C A) (L : Layout C A V) (nil : W) (wrap : V → W) where
    -- An address: nil, or that of a cell which holds what the value stands for.
    abbrev pub Leads : List C → ℕ → Option ℕ → W → Type 0
    Leads m lo none w = w ≡ nil
    Leads m lo (some a) w =
        (x : A) × (v : V) × (lo ≤ a) × (at a m ≡ some (k.make x)) × L.reads m lo x v × (w ≡ wrap v)

    pub Leads-agree :
        (m m' : List C) (lo : ℕ) (p : Option ℕ) (w : W)
        → Agrees lo m m'
        → Leads m lo p w
        → Leads m' lo p w
    Leads-agree m m' lo none w same h = h
    Leads-agree m m' lo (some a) w same (x, v, l, e, r, q) =
        (x, v, l, same a (k.make x) l e, L.agree m m' lo x v same r, q)

    pub Leads-lower :
        (m : List C) (lo hi : ℕ) (p : Option ℕ) (w : W) → lo ≤ hi → Leads m hi p w → Leads m lo p w
    Leads-lower m lo hi none w le h = h
    Leads-lower m lo hi (some a) w le (x, v, l, e, r, q) =
        (x, v, omega arith, e, L.lower m lo hi x v le r, q)

    copy_pointer-some :
        (a : ℕ) (m : List C) (x : A)
        → at a m ≡ some (k.make x)
        → copy_pointer k L.into (some a) m
          ≡ (some (length (L.into x m).1), push (L.into x m).1 (k.make (L.into x m).0))
    unfolding copy_pointer
    copy_pointer-some a m x e = rw (e, copy_pointer, k.read-make x)

    pub Leads-copies :
        (m : List C) (lo : ℕ) (p : Option ℕ) (w : W)
        → Leads m lo p w
        → Extends m (copy_pointer k L.into p m).1
          × Leads (copy_pointer k L.into p m).1 (length m) (copy_pointer k L.into p m).0 w
    unfolding copy_pointer
    Leads-copies m lo none w h = (Extends-refl m, h)
    Leads-copies m lo (some a) w (x, v, l, e, r, q) =
        let (y, m') = L.into x m in
        let (more, read) = L.copies m lo x v r in
        let new = k.make y in
        rw (copy_pointer-some a m x e) (
          Extends-trans m m' (push m' new) more (Extends-push m' new),
          (
            y,
            v,
            more.0,
            at-push_new m' new,
            L.agree m' (push m' new) (length m) y v
                (Agrees-of_Extends (length m) m' (push m' new) (Extends-push m' new)) read,
            q,
          ),
        )

    abbrev pub pointer : Layout C (Option ℕ) W
    pointer = record {
      reads = Leads;
      into = copy_pointer k L.into;
      agree = Leads-agree;
      lower = Leads-lower;
      copies = Leads-copies;
    }

  module _ {A V : Type 0} (L : Layout C A V) where
    abbrev pub AllRead : List C → ℕ → List A → List V → Type 0
    AllRead m lo [] [] = Unit
    AllRead m lo [] (v ∷ vs) = ⊥
    AllRead m lo (x ∷ xs) [] = ⊥
    AllRead m lo (x ∷ xs) (v ∷ vs) = L.reads m lo x v × AllRead m lo xs vs

    pub AllRead-agree :
        (m m' : List C) (lo : ℕ) (xs : List A) (vs : List V)
        → Agrees lo m m'
        → AllRead m lo xs vs
        → AllRead m' lo xs vs
    AllRead-agree m m' lo [] [] same h = tt
    AllRead-agree m m' lo [] (v ∷ vs) same h = h
    AllRead-agree m m' lo (x ∷ xs) [] same h = h
    AllRead-agree m m' lo (x ∷ xs) (v ∷ vs) same (h, hs) =
        (L.agree m m' lo x v same h, AllRead-agree m m' lo xs vs same hs)

    pub AllRead-lower :
        (m : List C) (lo hi : ℕ) (xs : List A) (vs : List V)
        → lo ≤ hi
        → AllRead m hi xs vs
        → AllRead m lo xs vs
    AllRead-lower m lo hi [] [] le h = tt
    AllRead-lower m lo hi [] (v ∷ vs) le h = h
    AllRead-lower m lo hi (x ∷ xs) [] le h = h
    AllRead-lower m lo hi (x ∷ xs) (v ∷ vs) le (h, hs) =
        (L.lower m lo hi x v le h, AllRead-lower m lo hi xs vs le hs)

    pub AllRead-copies :
        (m : List C) (lo : ℕ) (xs : List A) (vs : List V)
        → AllRead m lo xs vs
        → Extends m (copy_items L.into xs m).1
          × AllRead (copy_items L.into xs m).1 (length m) (copy_items L.into xs m).0 vs
    unfolding copy_items
    AllRead-copies m lo [] [] h = (Extends-refl m, tt)
    AllRead-copies m lo [] (v ∷ vs) h = elim h [ ]
    AllRead-copies m lo (x ∷ xs) [] h = elim h [ ]
    AllRead-copies m lo (x ∷ xs) (v ∷ vs) (h, hs) =
        let (y, m₁) = L.into x m in
        let (ys, m₂) = copy_items L.into xs m₁ in
        let (e₁, r₁) = L.copies m lo x v h in
        let (e₂, r₂) =
          AllRead-copies m₁ lo xs vs
            (AllRead-agree m m₁ lo xs vs (Agrees-of_Extends lo m m₁ e₁) hs) in
        (
          Extends-trans m m₁ m₂ e₁ e₂,
          (
            L.agree m₁ m₂ (length m) y v (Agrees-of_Extends (length m) m₁ m₂ e₂) r₁,
            AllRead-lower m₂ (length m) (length m₁) ys vs e₁.0 r₂,
          ),
        )

    abbrev pub items : Layout C (List A) (List V)
    items = record {
      reads = AllRead;
      into = copy_items L.into;
      agree = AllRead-agree;
      lower = AllRead-lower;
      copies = AllRead-copies;
    }

    -- A slice: a nil one is empty.
    abbrev pub slice : Kind C (List A) → Layout C (Option ℕ) (List V)
    slice k = pointer k items [] (λ vs. vs)

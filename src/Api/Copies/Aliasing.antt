-- ===== src/Api/Copies/Aliasing.antt =====
-- A copy and its original share no memory.
use native.Mathlib.Decide.{dec_lt}
use fluxgate_operator.Prelude.{
  ℕ, ◌≤◌, ◌<◌, List, length, Option, some, ◌≡◌, ◌⊎◌, inl, inr, refl, ◌∙◌, arith,
}
use fluxgate_operator.Api.{ObjectMeta, PipelineSecurityPolicy, PipelineSecurityReport}
use fluxgate_operator.Api.Memory.{write, Agrees, Extends, lt_of_at, at-write_ne}
use fluxgate_operator.Api.Layouts.{Layout, Agrees-of_Extends}
use fluxgate_operator.Api.Stored.{StoredPolicy, Cell}
use fluxgate_operator.Api.Copies.{
  deep_copy, deep_copy_policy, policy_into, policy_list_into, report_list_into,
}
use fluxgate_operator.Api.Copies.Laws.{policy_layout, policies_layout, reports_layout}

-- The copy `y` in `m'` of what `x` stood for in `m`, and a store at `a`: the copy stands for the same, and so
-- does the original still; a store into a cell of before leaves the copy as it is, and a store into a new
-- one leaves the original as it is.
abbrev pub IsDeepCopy :
    {C A V : Type 0} → Layout C A V → List C → A → V → A → List C → ℕ → C → Type 0
IsDeepCopy L m x v y m' a c =
    L.reads m' (length m) y v
    × L.reads m' 0 x v
    × (((a < length m) × L.reads (write a c m') (length m) y v)
        ⊎ ((length m ≤ a) × L.reads (write a c m') 0 x v))

write-Agrees :
    {C : Type 0} (a : ℕ) (c : C) (m : List C) (lo : ℕ) → a < lo → Agrees lo m (write a c m)
write-Agrees a c m lo below b d le h = at-write_ne a b c m (λ e. omega arith) ∙ h

Extends-write :
    {C : Type 0} (a : ℕ) (c : C) (m m' : List C)
    → Extends m m'
    → length m ≤ a
    → Agrees 0 m (write a c m')
Extends-write a c m m' (l, same) above b d le h =
    at-write_ne a b c m' (λ e. omega (arith, lt_of_at b m d h)) ∙ same b d le h

into-IsDeepCopy :
    {C A V : Type 0} (L : Layout C A V) (m : List C) (x : A) (v : V) (a : ℕ) (c : C)
    → L.reads m 0 x v
    → IsDeepCopy L m x v (L.into x m).0 (L.into x m).1 a c
into-IsDeepCopy L m x v a c h =
    let (y, m') = L.into x m in
    let (more, copied) = L.copies m 0 x v h in
    (
      copied,
      L.agree m m' 0 x v (Agrees-of_Extends 0 m m' more) h,
      elim (dec_lt a (length m)) [
        | yes below ↦ inl (
          below,
          L.agree m' (write a c m') (length m) y v (write-Agrees a c m' (length m) below) copied,
        )
        | no above ↦ inr (
          omega arith,
          L.agree m (write a c m') 0 x v (Extends-write a c m m' more (omega arith)) h,
        )
      ],
    )

module _ (Meta Extra : Type 0) (M : Layout (Cell Meta Extra) Meta ObjectMeta) where
  -- The copy of a policy is deep, the metadata's being so: it stands for the same policy as the original,
  -- by cells that are new, so that no store into a cell that was there before changes it, and no store into
  -- a new cell changes the original.
  pub deep_copy_policy-IsDeepCopy :
      (x : StoredPolicy Meta) (v : PipelineSecurityPolicy) (m : List (Cell Meta Extra)) (a : ℕ)
      (c : Cell Meta Extra)
      → (policy_layout Meta Extra M).reads m 0 x v
      → let (p, m') = deep_copy_policy Meta Extra M.into (some x) m in
        (y : StoredPolicy Meta) × (p ≡ some y)
        × IsDeepCopy (policy_layout Meta Extra M) m x v y m' a c
  unfolding deep_copy
  deep_copy_policy-IsDeepCopy x v m a c h = (
    (policy_into Meta Extra M.into x m).0,
    refl,
    into-IsDeepCopy (policy_layout Meta Extra M) m x v a c h,
  )

  -- The copies of the lists of policies and of reports are deep: the copy of the `Items` stands for the same
  -- resources by new cells, and no store changes both the original and the copy.
  lists-IsDeepCopy :
      (p q : Option ℕ) (ps : List PipelineSecurityPolicy) (rs : List PipelineSecurityReport)
      (m : List (Cell Meta Extra)) (a : ℕ) (c : Cell Meta Extra)
      → (policies_layout Meta Extra M).reads m 0 p ps
      → (reports_layout Meta Extra M).reads m 0 q rs
      → (let (p', m') = policy_list_into Meta Extra M.into p m in
          IsDeepCopy (policies_layout Meta Extra M) m p ps p' m' a c)
        × (let (q', m') = report_list_into Meta Extra M.into q m in
            IsDeepCopy (reports_layout Meta Extra M) m q rs q' m' a c)
  unfolding policy_list_into report_list_into
  lists-IsDeepCopy p q ps rs m a c h g = (
    into-IsDeepCopy (policies_layout Meta Extra M) m p ps a c h,
    into-IsDeepCopy (reports_layout Meta Extra M) m q rs a c g,
  )

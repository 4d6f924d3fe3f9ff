-- ===== src/Controller/Policy/Select/Laws.antt =====
-- Which reports a policy selects.
use fluxgate_operator.Prelude.{
  Bool, true, List, [], ◌∷◌, any, all, All, Dict, text_at, String, ◌==◌, texts, equal_fold, Unicode,
  ◌≡◌, ◌↔◌, ◌⊎◌, refl, arith,
}
use fluxgate_operator.Api.{PipelineSecurityPolicy, PipelineSecurityReport}
use fluxgate_operator.Controller.Policy.Select.{
  label_source_kind, is_empty, kinds_match, labels_match, selector_matches,
}

-- Some item of the list has the property.
abbrev pub Any {ℓ} : {A : Type ℓ} → (A → Type 0) → List A → Type 0
Any P [] = ⊥
Any P (x ∷ xs) = P x ⊎ Any P xs

any_iff {ℓ} :
    {A : Type ℓ} (p : A → Bool) (xs : List A) → (any p xs ≡ true) ↔ Any (λ x. p x ≡ true) xs
any_iff p [] = (λ h. cc, λ h. absurd h)
any_iff p (x ∷ xs) = ground (arith, any_iff p xs)

is_empty_iff : (kinds : List String) → (is_empty kinds ≡ true) ↔ (kinds ≡ [])
is_empty_iff [] = (λ h. refl, λ h. refl)
is_empty_iff (k ∷ ks) = (λ h. cc, λ h. cc)

all-text_at_iff :
    (labels wanted : Dict String)
    → (all (λ (key, val). text_at key labels == val) wanted ≡ true)
      ↔ All (λ (key, val). text_at key labels ≡ val) wanted
all-text_at_iff labels [] = (λ h. tt, λ h. refl)
all-text_at_iff labels ((key, val) ∷ wanted) = grind (texts, all-text_at_iff labels wanted)

-- A policy selects a report exactly when its list of kinds is empty or names the report's source
-- kind up to case, and the report has each label that the policy asks for, a missing label counting
-- as the empty text.
pub selector_matches_iff :
    (u : Unicode) (p : PipelineSecurityPolicy) (r : PipelineSecurityReport)
    → (selector_matches u p r ≡ true) ↔ (
        ((p.spec.selector.cicd_kinds ≡ [])
          ⊎ Any
              (λ kind. equal_fold u kind (text_at label_source_kind r.meta.labels) ≡ true)
              p.spec.selector.cicd_kinds)
        × All (λ (key, val). text_at key r.meta.labels ≡ val) p.spec.selector.match_labels)
unfolding selector_matches kinds_match labels_match
selector_matches_iff u p r = ground (
  arith,
  is_empty_iff p.spec.selector.cicd_kinds,
  any_iff (λ kind. equal_fold u kind (text_at label_source_kind r.meta.labels))
      p.spec.selector.cicd_kinds,
  all-text_at_iff r.meta.labels p.spec.selector.match_labels,
)

-- ===== src/Controller/Policy/Select.antt =====
-- internal/controller/policy_controller.go, `selectorMatches`.
pub mod Laws
use fluxgate_operator.Prelude.{
  Bool, true, false, ◌&&◌, not, List, [], ◌∷◌, any, all, Dict, text_at, String, ◌==◌, equal_fold,
  if◌then◌else◌, Unicode,
}
use fluxgate_operator.Api.{PipelineSecurityPolicy, PipelineSecurityReport}

abbrev pub label_source_kind : String
label_source_kind = "fluxgate.north-echo.dev/source-kind"

abbrev pub label_source_name : String
label_source_name = "fluxgate.north-echo.dev/source-name"

abbrev pub is_empty {ℓ} : {A : Type ℓ} → List A → Bool
is_empty [] = true
is_empty (x ∷ xs) = false

module _ (u : Unicode) where
  -- The loop over the kinds, which an empty list skips.
  unfoldable pub kinds_match : List String → String → Bool
  kinds_match kinds source_kind =
      if is_empty kinds then true else any (λ kind. equal_fold u kind source_kind) kinds

  -- The loop over the labels. Its order does not matter: the first mismatch ends it.
  unfoldable pub labels_match : Dict String → Dict String → Bool
  labels_match wanted labels = all (λ (key, val). text_at key labels == val) wanted

  unfoldable pub selector_matches : PipelineSecurityPolicy → PipelineSecurityReport → Bool
  selector_matches policy report =
      let sel = policy.spec.selector in
      let labels = report.meta.labels in
      kinds_match sel.cicd_kinds (text_at label_source_kind labels)
      && labels_match sel.match_labels labels

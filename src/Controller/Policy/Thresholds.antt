-- ===== src/Controller/Policy/Thresholds.antt =====
-- internal/controller/policy_controller.go, `evaluateThresholds` and `triggerMatches`.
pub mod Laws
use fluxgate_operator.Prelude.{
  Bool, true, false, ◌&&◌, ◌||◌, ℕ, leb, List, [], ◌∷◌, any, Dict, lookup, Option, none, some,
  String, ◌==◌, ltb_ℤ, pos, to_lower, contains, if◌then◌else◌, Unicode,
}
use fluxgate_operator.Api.{Finding, PipelineSecurityPolicy, PipelineSecurityReport}

module _ (u : Unicode) where
  -- Whether a finding is about an action that is not pinned.
  unfoldable pub is_unpinned : Finding → Bool
  is_unpinned f =
      contains (to_lower u f.rule) "pin"
      || contains (to_lower u f.message) "unpinned"
      || contains (to_lower u f.message) "not pinned"

  -- `evaluateThresholds`
  unfoldable pub evaluate_thresholds : PipelineSecurityPolicy → PipelineSecurityReport → String
  evaluate_thresholds policy report =
      let thresholds = policy.spec.thresholds in
      let summary = report.status.summary in
      if ltb_ℤ thresholds.max_critical summary.critical
      then "Critical"
      else if ltb_ℤ thresholds.max_high summary.high
      then "NonCompliant"
      else if thresholds.require_pinned_actions && any is_unpinned report.status.findings
      then "NonCompliant"
      else if ltb_ℤ (pos 0) summary.medium
      then "Warning"
      else "Compliant"

abbrev pub levels : Dict ℕ
levels = ("Warning", 1) ∷ ("NonCompliant", 2) ∷ ("Critical", 3) ∷ []

-- `triggerMatches`
unfoldable pub trigger_matches : String → String → Bool
trigger_matches trigger violation_level = elim (lookup trigger levels) [
  | none ↦ false
  | some trigger_level ↦ elim (lookup violation_level levels) [
    | none ↦ false
    | some viol_level ↦ leb trigger_level viol_level
  ]
]

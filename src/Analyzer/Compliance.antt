-- ===== src/Analyzer/Compliance.antt =====
-- internal/analyzer/analyzer.go, `ComputeComplianceState`: severity counts and the state that they
-- give.
pub mod Counts
pub mod State
use fluxgate_operator.Prelude.{List, [], ◌∷◌, String, ◌==◌, ℤ, pos, int_inc, ltb_ℤ, if◌then◌else◌}
use fluxgate_operator.Api.{Finding, FindingSummary}

-- `v1alpha1.FindingSummary{}`
abbrev pub zero_summary : FindingSummary
zero_summary = record {
  critical = pos 0;
  high = pos 0;
  medium = pos 0;
  low = pos 0;
  info = pos 0;
  total = pos 0;
}

-- The `switch` on a finding's severity: any other severity counts in the total alone.
unfoldable pub count_severity : String → FindingSummary → FindingSummary
count_severity severity s =
    if severity == "critical"
    then record s { critical = int_inc s.critical }
    else if severity == "high"
    then record s { high = int_inc s.high }
    else if severity == "medium"
    then record s { medium = int_inc s.medium }
    else if severity == "low"
    then record s { low = int_inc s.low }
    else if severity == "info"
    then record s { info = int_inc s.info }
    else s

-- The loop over the findings.
unfoldable pub summarize : FindingSummary → List Finding → FindingSummary
summarize s [] = s
summarize s (f ∷ fs) =
    summarize (count_severity f.severity (record s { total = int_inc s.total })) fs

unfoldable pub state_of_summary : FindingSummary → String
state_of_summary s =
    if ltb_ℤ (pos 0) s.critical
    then "Critical"
    else if ltb_ℤ (pos 0) s.high
    then "NonCompliant"
    else if ltb_ℤ (pos 0) s.medium
    then "Warning"
    else "Compliant"

unfoldable pub compute_compliance_state : List Finding → String × FindingSummary
compute_compliance_state findings =
    let summary = summarize zero_summary findings in (state_of_summary summary, summary)

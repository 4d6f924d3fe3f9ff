-- ===== src/Controller/Report.antt =====
-- internal/controller/report_controller.go: keeps a report's state and counts those of its findings.
pub mod Laws
use fluxgate_operator.Prelude.{
  Bool, true, false, Result, ok, err, String, ◌==◌, not, ◌&&◌, ◌||◌, ℤ, pos, eqb_ℤ, if◌then◌else◌,
  ignore_not_found, ◌>>=◌,
}
use fluxgate_operator.Api.{FindingSummary, PipelineSecurityReport}
use fluxgate_operator.Platform.{Manager, Setup, Platform, NamespacedName, CtrlResult, no_requeue}
use fluxgate_operator.Analyzer.Compliance.{compute_compliance_state}

-- `==` on `FindingSummary` structs
unfoldable pub summary_eq : FindingSummary → FindingSummary → Bool
summary_eq a b =
    eqb_ℤ a.critical b.critical
    && eqb_ℤ a.high b.high
    && eqb_ℤ a.medium b.medium
    && eqb_ℤ a.low b.low
    && eqb_ℤ a.info b.info
    && eqb_ℤ a.total b.total

-- Whether `needsUpdate` is set.
unfoldable pub needs_update : PipelineSecurityReport → Bool
needs_update report =
    let (state, summary) = compute_compliance_state report.status.findings in
    not (report.status.compliance_state == state) || not (summary_eq report.status.summary summary)

abbrev set_state : String → PipelineSecurityReport → PipelineSecurityReport
set_state state report = record report {
  status = record report.status { compliance_state = state };
}

abbrev set_summary : FindingSummary → PipelineSecurityReport → PipelineSecurityReport
set_summary summary report = record report { status = record report.status { summary = summary } }

-- The report after the two assignments, each made where the value differs.
unfoldable pub refreshed : PipelineSecurityReport → PipelineSecurityReport
refreshed report =
    let (state, summary) = compute_compliance_state report.status.findings in
    let report' =
      if report.status.compliance_state == state then report else set_state state report in
    if summary_eq report.status.summary summary then report' else set_summary summary report'

module _ (P : Platform) where
  unfoldable pub refresh : PipelineSecurityReport → P.State → Result CtrlResult × P.State
  refresh report s =
      let (written, s') = P.update_report_status s (refreshed report) in
      if needs_update report then (written >>= λ _. ok no_requeue, s') else (ok no_requeue, s)

  -- `ReportController.Reconcile`
  unfoldable pub reconcile : NamespacedName → P.State → Result CtrlResult × P.State
  reconcile nn s = elim (P.get_report s nn) [
    | err e ↦ (ignore_not_found e >>= λ _. ok no_requeue, s)
    | ok report ↦ refresh report s
  ]

-- `SetupWithManager`
abbrev pub setup_with_manager : Manager → Setup
setup_with_manager mgr = record {
  has_recorder = false;
  answer = mgr.complete "PipelineSecurityReport" "report";
}

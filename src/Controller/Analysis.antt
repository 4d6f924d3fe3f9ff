-- ===== src/Controller/Analysis.antt =====
-- internal/controller/analysis_controller.go: findings become reports.
pub mod Naming
pub mod Notices
pub mod Laws
pub mod Notes
pub mod Rounds
pub mod Gauges
pub mod Collision
use fluxgate_operator.Prelude.{
  ℕ, ◌*◌, Bool, true, false, ◌||◌, List, [], ◌∷◌, ◌++◌, insert, Option, none, some, Result, ok, err,
  Error, not_found, failure, wrap, String, ◌==◌, ◌<>◌, concat, itoa, ℤ, pos, ltb_ℤ, time_sub,
  trim_suffix, if◌then◌else◌, ◌>>=◌,
}
use fluxgate_operator.Api.{Finding, FindingSummary, PipelineSecurityReport, WorkloadRef}
use fluxgate_operator.Metrics.{compliance_state_to_float}
use fluxgate_operator.Connector.Types.{PipelineConnector, PipelineSource}
use fluxgate_operator.Platform.{
  Manager, Setup, Platform, NamespacedName, CtrlResult, requeue, minute,
}
use fluxgate_operator.Platform.World.{
  World, Op, Event, measure, emit, write, compliance_state, findings_total, evaluation_duration,
}
use fluxgate_operator.Analyzer.Compliance.{compute_compliance_state}
use fluxgate_operator.Analyzer.Analyze.{Analyzer, analyze}
use fluxgate_operator.Controller.Policy.Select.{label_source_kind, label_source_name, is_empty}
use fluxgate_operator.Controller.Policy.Suspend.{serves}
use fluxgate_operator.Controller.Discovery.{list}
use fluxgate_operator.Controller.Analysis.Naming.{sanitize_name}

-- The namespace of a source, or "default".
abbrev pub namespace_of : PipelineSource → String
namespace_of src = if src.namespace == "" then "default" else src.namespace

abbrev pub report_name : (P : Platform) → PipelineSource → String
report_name P src = sanitize_name P.unicode (concat ("psr-" ∷ src.owner ∷ "-" ∷ src.repo ∷ []))

-- The `switch` of `recordFindingsMetrics`.
unfoldable pub connector_label : String → String
connector_label kind =
    if kind == "Application"
    then "argocd"
    else if kind == "Kustomization" || kind == "GitRepository"
    then "flux"
    else "unknown"

module _ (P : Platform) where
  -- The loop over the connectors: those that serve the source add their workloads.
  unfoldable pub correlated :
      List (PipelineConnector P.State) → PipelineSource → P.State → List WorkloadRef
  correlated [] src s = []
  correlated (conn ∷ conns) src s =
      let rest = correlated conns src s in
      if conn.name == trim_suffix src.source_kind "ation" || serves src.source_kind conn.name
      then elim (conn.resolve_workloads s src) [ err e ↦ rest | ok wl ↦ wl ++ rest ]
      else rest

  abbrev pub new_report :
      PipelineSource → ℤ → List WorkloadRef → List Finding → PipelineSecurityReport
  new_report src now workloads findings =
      let (state, summary) = compute_compliance_state findings in
      record {
        meta = record {
          name = report_name P src;
          namespace = namespace_of src;
          labels =
              insert label_source_name src.source_name
                (insert label_source_kind src.source_kind []);
          annotations = [];
        };
        status = record {
          compliance_state = state;
          last_evaluated = now;
          source = record { repository = src.repository; branch = src.branch; workflow_path = "" };
          summary = summary;
          correlated_workloads = workloads;
          findings = findings;
        };
      }

  -- An existing report with a new status; its labels and annotations stay.
  abbrev pub updated_report :
      PipelineSecurityReport
      → PipelineSource
      → ℤ
      → List WorkloadRef
      → List Finding
      → PipelineSecurityReport
  updated_report report src now workloads findings = record report {
    status = (new_report src now workloads findings).status;
  }

  -- The loop of `recordFindingsMetrics`.
  unfoldable pub measure_findings : String → String → List Finding → World P → World P
  measure_findings ns name [] w = w
  measure_findings ns name (f ∷ fs) w =
      measure_findings ns name fs (measure P (findings_total ns name f.rule f.severity) w)

  -- `recordFindingsMetrics`
  unfoldable pub record_findings_metrics :
      PipelineSecurityReport → List Finding → String → PipelineSource → World P → World P
  record_findings_metrics report findings state src w =
      let ns = report.meta.namespace in
      let name = report.meta.name in
      measure_findings ns name findings (
        measure P
          (compliance_state ns name (connector_label src.source_kind)
            (compliance_state_to_float state))
          w)

  abbrev pub report_event : PipelineSecurityReport → String → String → String → Event
  report_event report type reason message = record {
    namespace = report.meta.namespace;
    name = report.meta.name;
    type = type;
    reason = reason;
    message = message;
  }

  -- `emitFindingEvents`
  unfoldable pub emit_finding_events :
      Bool → PipelineSecurityReport → String → FindingSummary → World P → World P
  emit_finding_events false report state summary w = w
  emit_finding_events true report state summary w =
      let grave = ltb_ℤ (pos 0) summary.critical || ltb_ℤ (pos 0) summary.high in
      let detected = report_event report "Warning" "PipelineFindingDetected" (
        concat (
          "Detected "
          ∷ itoa summary.critical
          ∷ " critical, "
          ∷ itoa summary.high
          ∷ " high findings for "
          ∷ report.status.source.repository
          ∷ [])) in
      let changed = report_event report "Normal" "ComplianceStateChanged" (
        concat (
          "Compliance state is now "
          ∷ state
          ∷ " (total findings: "
          ∷ itoa summary.total
          ∷ ")"
          ∷ [])) in
      emit P changed (if grave then emit P detected w else w)

  module _ (has_recorder : Bool) (src : PipelineSource) (findings : List Finding) where
    -- The metrics and the events that follow a report that was stored.
    unfoldable pub announce : PipelineSecurityReport → World P → World P
    announce report w =
        let (state, summary) = compute_compliance_state findings in
        emit_finding_events has_recorder report state summary
          (record_findings_metrics report findings state src w)

    -- A write of a report, and what follows it.
    unfoldable pub finish :
        String → PipelineSecurityReport → Result (Unit {0}) × World P → Result (Unit {0}) × World P
    finish what report (err e, w) =
        (err (wrap (concat (what ∷ " report " ∷ report_name P src ∷ ": " ∷ [])) e), w)
    finish what report (ok done, w) = (ok tt, announce report w)

    -- Creation, or update, of the report.
    unfoldable pub store_report : List WorkloadRef → Op P (Unit {0})
    store_report workloads w =
        let fresh = new_report src (P.now w.api) workloads findings in
        elim (P.get_report w.api
          (record { name = report_name P src; namespace = namespace_of src })) [
            | err (not_found m) ↦ finish "creating" fresh (write P (λ s. P.create_report s fresh) w)
            | err (failure m) ↦ (
              err (wrap (concat ("getting report " ∷ report_name P src ∷ ": " ∷ [])) (failure m)),
              w,
            )
            | ok old ↦
                let report = updated_report old src (P.now w.api) workloads findings in
                finish "updating" report (write P (λ s. P.update_report_status s report) w)
          ]

  module _ (connectors : List (PipelineConnector P.State)) (has_recorder : Bool)
      (a : Analyzer) where
    -- `analyzeSource`
    unfoldable pub analyze_source : PipelineSource → Op P (Unit {0})
    analyze_source src w =
        let eval_start = P.now w.api in
        let (answer, w') = analyze P a src w in
        elim answer [
          | err e ↦ (err (wrap (concat ("analyzing " ∷ src.name ∷ ": " ∷ [])) e), w')
          | ok findings ↦
              store_report has_recorder src findings (correlated connectors src w'.api) (
                measure P
                  (evaluation_duration (namespace_of src) src.name
                    (time_sub (P.now w'.api) eval_start))
                  w')
        ]

    -- The loop of `Reconcile`: an error of one source is logged.
    unfoldable pub analyze_all : List PipelineSource → World P → World P
    analyze_all [] w = w
    analyze_all (src ∷ srcs) w = analyze_all srcs (analyze_source src w).1

    -- `AnalysisController.Reconcile`; `order` is the order in which Go ranges over the registry.
    unfoldable pub reconcile :
        (List PipelineSource → List PipelineSource) → NamespacedName → Op P CtrlResult
    reconcile order nn w =
        let sources = order (list w.registry) in
        if is_empty sources
        then (ok (requeue (pos (2 * minute))), w)
        else (ok (requeue (pos (5 * minute))), analyze_all sources w)

-- `SetupWithManager`
abbrev pub setup_with_manager : Manager → Setup
setup_with_manager mgr = record {
  has_recorder = true;
  answer = mgr.complete "PipelineSecurityReport" "analysis";
}

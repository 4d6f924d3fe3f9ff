-- ===== src/Controller/Policy/Enforce.antt =====
-- internal/controller/policy_controller.go, `executeAnnotate`, `executeAlert`,
-- `executeEnforcement` and `Reconcile`.
pub mod Laws
pub mod Reconcile
pub mod Connectors
use fluxgate_operator.Prelude.{
  Bool, true, false, not, ◌||◌, List, [], ◌∷◌, length, Option, none, some, Result, ok, err, failure,
  wrap, String, ◌==◌, ◌<>◌, concat, itoa, ℤ, pos, eqb_ℤ, ◌*◌, if◌then◌else◌, ◌>>=◌,
  ignore_not_found,
}
use fluxgate_operator.Api.{
  AlertTarget, EnforcementAction, FindingSummary, PipelineSecurityPolicy, PipelineSecurityReport,
}
use fluxgate_operator.Json.{Json, str, num, obj, field, end}
use fluxgate_operator.Alert.{send_slack, send_webhook}
use fluxgate_operator.Connector.Types.{PipelineConnector, PipelineSource}
use fluxgate_operator.Platform.{
  Manager, Setup, Platform, NamespacedName, CtrlResult, no_requeue, requeue, minute,
}
use fluxgate_operator.Platform.World.{World, Op, measure, enforcement_actions, write}
use fluxgate_operator.Controller.Policy.Select.{selector_matches}
use fluxgate_operator.Controller.Policy.Thresholds.{evaluate_thresholds, trigger_matches}
use fluxgate_operator.Controller.Policy.Workloads.{execute_label_workloads}
use fluxgate_operator.Controller.Policy.Suspend.{Act, annotate, execute_suspend_sync}
use fluxgate_operator.Controller.Policy.Restore.{
  annotation_compliance_state, annotation_finding_summary, restore_compliance,
}

-- "%d critical, %d high, %d medium"
unfoldable pub summary_text : FindingSummary → String
summary_text s =
    concat
      (itoa s.critical ∷ " critical, " ∷ itoa s.high ∷ " high, " ∷ itoa s.medium ∷ " medium" ∷ [])

abbrev pub annotated : PipelineSecurityReport → PipelineSecurityReport
annotated report =
    annotate annotation_finding_summary (summary_text report.status.summary)
      (annotate annotation_compliance_state report.status.compliance_state report)

unfoldable pub alert_message : PipelineSecurityReport → String → String
alert_message report violation_level = concat (
    "[Fluxgate] Pipeline "
    ∷ report.meta.namespace
    ∷ "/"
    ∷ report.meta.name
    ∷ " is "
    ∷ violation_level
    ∷ ": "
    ∷ summary_text report.status.summary
    ∷ " findings (repo: "
    ∷ report.status.source.repository
    ∷ ")"
    ∷ [])

-- The payload of a webhook, its keys in the order of their names.
unfoldable pub webhook_payload : PipelineSecurityReport → String → Json
webhook_payload report violation_level =
    let s = report.status.summary in
    obj (
      field "message" (str (alert_message report violation_level)) (
        field "namespace" (str report.meta.namespace) (
          field "report" (str report.meta.name) (
            field "repository" (str report.status.source.repository) (
              field "state" (str violation_level) (
                field "summary"
                  (obj (
                    field "critical" (num s.critical) (
                      field "high" (num s.high) (
                        field "low" (num s.low)
                          (field "medium" (num s.medium) (field "total" (num s.total) end))))))
                  end))))))

module _ (P : Platform) where
  -- `executeAnnotate`
  unfoldable pub execute_annotate : Act P
  execute_annotate report w =
      let report' = annotated report in
      let (answer, w') = write P (λ s. P.update_report s report') w in
      elim answer [
        | err e ↦ (
          err (wrap (concat ("annotating report " ∷ report.meta.name ∷ ": " ∷ [])) e),
          report',
          w',
        )
        | ok done ↦ (ok tt, report', w')
      ]

  -- The `switch` of `executeAlert`.
  unfoldable pub alert_target : AlertTarget → PipelineSecurityReport → String → Op P (Unit {0})
  alert_target target report violation_level w =
      if target.type == "slack"
      then (if target.url == ""
          then (err (failure "slack alert target has no URL"), w)
          else write P
              (send_slack P target.url target.channel (alert_message report violation_level)) w)
      else if target.type == "webhook"
      then (if target.url == ""
          then (err (failure "webhook alert target has no URL"), w)
          else write P (send_webhook P target.url (webhook_payload report violation_level)) w)
      else (err (failure ("unsupported alert target type: " <> target.type)), w)

  -- `executeAlert`
  unfoldable pub execute_alert :
      EnforcementAction → PipelineSecurityReport → String → Op P (Unit {0})
  execute_alert action report violation_level w = elim action.alert_target [
    | none ↦ (err (failure "alert action has no alertTarget configured"), w)
    | some target ↦ alert_target target report violation_level w
  ]

  abbrev pub keeping :
      PipelineSecurityReport
      → Result (Unit {0}) × World P
      → Option (Result (Unit {0})) × PipelineSecurityReport × World P
  keeping report (answer, w) = (some answer, report, w)

  abbrev pub known :
      Result (Unit {0}) × PipelineSecurityReport × World P
      → Option (Result (Unit {0})) × PipelineSecurityReport × World P
  known (answer, report, w) = (some answer, report, w)

  module _ (connectors : List (PipelineConnector P.State)) (has_recorder : Bool) where
    -- The `switch` of `executeEnforcement`; `none` for an unknown action.
    unfoldable pub execute_action :
        EnforcementAction
        → String
        → PipelineSecurityReport
        → World P
        → Option (Result (Unit {0})) × PipelineSecurityReport × World P
    execute_action action violation_level report w =
        if action.action == "annotate"
        then known (execute_annotate report w)
        else if action.action == "alert"
        then keeping report (execute_alert action report violation_level w)
        else if action.action == "suspendSync"
        then known (execute_suspend_sync P connectors has_recorder action report w)
        else if action.action == "labelWorkloads"
        then (
          some (ok tt),
          report,
          record w {
            api =
                execute_label_workloads P report.status.correlated_workloads violation_level w.api;
          },
        )
        else (none, report, w)

    -- What follows the `switch`: only an action without an error is counted.
    unfoldable pub record_action :
        EnforcementAction
        → Option (Result (Unit {0})) × PipelineSecurityReport × World P
        → PipelineSecurityReport × World P
    record_action action (some (ok done), report, w) = (
      report,
      measure P (enforcement_actions action.action report.meta.namespace report.meta.name) w,
    )
    record_action action (_, report, w) = (report, w)

    -- The loop of `executeEnforcement`: no action ends it.
    unfoldable pub run_actions :
        List EnforcementAction
        → String
        → PipelineSecurityReport
        → World P
        → PipelineSecurityReport × World P
    run_actions [] violation_level report w = (report, w)
    run_actions (action ∷ actions) violation_level report w =
        let (report', w') =
          (if trigger_matches action.trigger violation_level
            then record_action action (execute_action action violation_level report w)
            else (report, w)) in
        run_actions actions violation_level report' w'

    -- `executeEnforcement`
    unfoldable pub execute_enforcement :
        PipelineSecurityPolicy
        → PipelineSecurityReport
        → String
        → World P
        → Result (Unit {0}) × PipelineSecurityReport × World P
    execute_enforcement policy report violation_level w =
        if violation_level == "Compliant"
        then restore_compliance P connectors has_recorder report w
        else (let (report', w') = run_actions policy.spec.enforcement violation_level report w in
            (ok tt, report', w'))

    -- The loop of `Reconcile`: an error of one report is logged.
    unfoldable pub enforce_all :
        PipelineSecurityPolicy → List PipelineSecurityReport → World P → World P
    enforce_all policy [] w = w
    enforce_all policy (report ∷ reports) w = enforce_all policy reports (
        if selector_matches P.unicode policy report
        then (execute_enforcement policy report (evaluate_thresholds P.unicode policy report) w).2
        else w)

    -- `Spec.EvaluationInterval`, or five minutes.
    unfoldable pub requeue_delay : PipelineSecurityPolicy → ℤ
    requeue_delay policy =
        if eqb_ℤ policy.spec.evaluation_interval (pos 0)
        then pos (5 * minute)
        else policy.spec.evaluation_interval

    abbrev pub activated :
        PipelineSecurityPolicy → List PipelineSecurityReport → PipelineSecurityPolicy
    activated policy reports = record policy {
      status = record {
        phase = "Active";
        message = concat ("Evaluated " ∷ itoa (pos (length reports)) ∷ " reports" ∷ []);
      };
    }

    -- `Reconcile` once the policy and the reports of its namespace are read.
    unfoldable pub reconcile_reports :
        PipelineSecurityPolicy → List PipelineSecurityReport → Op P CtrlResult
    reconcile_reports policy reports w =
        let w' = enforce_all policy reports w in
        let (answer, w'') = write P (λ s. P.update_policy_status s (activated policy reports)) w' in
        (answer >>= λ _. ok (requeue (requeue_delay policy)), w'')

    -- `PolicyController.Reconcile`
    unfoldable pub reconcile : NamespacedName → Op P CtrlResult
    reconcile nn w = elim (P.get_policy w.api nn) [
      | err e ↦ (ignore_not_found e >>= λ _. ok no_requeue, w)
      | ok policy ↦ elim (P.list_reports w.api policy.meta.namespace) [
        | err e ↦ (err e, w)
        | ok reports ↦ reconcile_reports policy reports w
      ]
    ]

-- `SetupWithManager`
abbrev pub setup_with_manager : Manager → Setup
setup_with_manager mgr = record {
  has_recorder = true;
  answer = mgr.complete "PipelineSecurityPolicy" "policy";
}

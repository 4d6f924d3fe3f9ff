-- ===== src/Controller/Policy/Restore.antt =====
-- internal/controller/policy_controller.go, `restoreCompliance`: the annotations go, the sync is
-- resumed and the risk labels go.
pub mod Laws
use fluxgate_operator.Prelude.{
  Bool, true, false, ◌||◌, List, [], ◌∷◌, Dict, lookup, erase, text_at, Option, none, some, Result,
  ok, err, wrap, String, ◌==◌, ◌<>◌, concat, if◌then◌else◌,
}
use fluxgate_operator.Api.{PipelineSecurityReport}
use fluxgate_operator.Connector.Types.{PipelineConnector, PipelineSource}
use fluxgate_operator.Platform.{Platform}
use fluxgate_operator.Platform.World.{World, Event, emit, write}
use fluxgate_operator.Controller.Policy.Select.{label_source_kind, label_source_name}
use fluxgate_operator.Controller.Policy.Suspend.{Act, annotation_first_detected, find_connector}
use fluxgate_operator.Controller.Policy.Workloads.{unlabel_all}

abbrev pub annotation_compliance_state : String
annotation_compliance_state = "fluxgate.north-echo.dev/compliance-state"

abbrev pub annotation_finding_summary : String
annotation_finding_summary = "fluxgate.north-echo.dev/finding-summary"

-- The keys that `restoreCompliance` removes.
abbrev pub enforcement_keys : List String
enforcement_keys =
    annotation_compliance_state ∷ annotation_finding_summary ∷ annotation_first_detected ∷ []

-- The loop over the keys, with the flag `updated`.
unfoldable pub remove_keys : List String → Dict String → Bool → Dict String × Bool
remove_keys [] annotations updated = (annotations, updated)
remove_keys (key ∷ keys) annotations updated = elim (lookup key annotations) [
  | none ↦ remove_keys keys annotations updated
  | some v ↦ remove_keys keys (erase key annotations) true
]

abbrev pub with_annotations : Dict String → PipelineSecurityReport → PipelineSecurityReport
with_annotations annotations report = record report {
  meta = record report.meta { annotations = annotations };
}

module _ (P : Platform) where
  abbrev pub resumed_event : PipelineSecurityReport → String → Event
  resumed_event report source_name = record {
    namespace = report.meta.namespace;
    name = report.meta.name;
    type = "Normal";
    reason = "SyncResumed";
    message = concat (
        "Sync resumed for " ∷ report.meta.namespace ∷ "/" ∷ source_name
        ∷ " after compliance restored" ∷ []);
  }

  module _ (connectors : List (PipelineConnector P.State)) (has_recorder : Bool) where
    -- `conn.Resume` and what follows it: an error is logged.
    unfoldable pub resume_by :
        PipelineConnector P.State
        → String
        → PipelineSource
        → PipelineSecurityReport
        → World P
        → World P
    resume_by conn source_name src report w =
        let (answer, w') = write P (λ s. conn.resume s src) w in
        elim answer [
          | err e ↦ w'
          | ok done ↦ if has_recorder then emit P (resumed_event report source_name) w' else w'
        ]

    -- The part that resumes the sync.
    unfoldable pub resume_sync : PipelineSecurityReport → World P → World P
    resume_sync report w =
        let source_name = text_at label_source_name report.meta.labels in
        let source_kind = text_at label_source_kind report.meta.labels in
        if source_name == "" || source_kind == "" then w else elim (lookup source_name w.registry) [
          | none ↦ w
          | some src ↦ elim (find_connector P source_kind connectors) [
            | none ↦ w
            | some conn ↦ resume_by conn source_name src report w
          ]
        ]

    -- What follows the update of the annotations.
    unfoldable pub resume_and_unlabel : PipelineSecurityReport → World P → World P
    resume_and_unlabel report w =
        let w' = resume_sync report w in
        record w' { api = unlabel_all P report.status.correlated_workloads w'.api }

    -- `Update`, and the rest if it is accepted.
    unfoldable pub update_and_restore : Act P
    update_and_restore report w =
        let (answer, w') = write P (λ s. P.update_report s report) w in
        elim answer [
          | err e ↦ (
            err (
                wrap (concat ("removing annotations from report " ∷ report.meta.name ∷ ": " ∷ []))
                  e),
            report,
            w',
          )
          | ok done ↦ (ok tt, report, resume_and_unlabel report w')
        ]

    -- `restoreCompliance`
    unfoldable pub restore_compliance : Act P
    restore_compliance report w =
        let (annotations, updated) = remove_keys enforcement_keys report.meta.annotations false in
        let report' = with_annotations annotations report in
        if updated
        then update_and_restore report' w
        else (ok tt, report', resume_and_unlabel report' w)

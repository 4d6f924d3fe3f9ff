-- ===== src/Controller/Policy/Suspend.antt =====
-- internal/controller/policy_controller.go, `executeSuspendSync`: the grace period, the lookup of
-- the source, and the call of its connector.
pub mod Laws
pub mod Missed
use fluxgate_operator.Prelude.{
  Bool, true, ◌&&◌, ◌||◌, List, [], ◌∷◌, lookup, insert, text_at, Option, none, some, Result, ok,
  err, failure, wrap, String, ◌==◌, ◌<>◌, quote, concat, ℤ, ltb_ℤ, time_sub, if◌then◌else◌,
}
use fluxgate_operator.Api.{EnforcementAction, PipelineSecurityReport}
use fluxgate_operator.Connector.Types.{PipelineConnector, PipelineSource}
use fluxgate_operator.Platform.{Platform}
use fluxgate_operator.Platform.World.{World, Event, emit, write}
use fluxgate_operator.Controller.Policy.Select.{label_source_kind, label_source_name}

abbrev pub annotation_first_detected : String
annotation_first_detected = "fluxgate.north-echo.dev/first-detected"

-- Which connector serves a kind of source.
unfoldable pub serves : String → String → Bool
serves kind name =
    (kind == "Application" && name == "argocd")
    || (kind == "Kustomization" && name == "flux")
    || (kind == "GitRepository" && name == "flux")

abbrev pub annotate : String → String → PipelineSecurityReport → PipelineSecurityReport
annotate key value report = record report {
  meta = record report.meta { annotations = insert key value report.meta.annotations };
}

module _ (P : Platform) where
  -- The first connector of the list that serves the kind.
  unfoldable pub find_connector :
      String → List (PipelineConnector P.State) → Option (PipelineConnector P.State)
  find_connector kind [] = none
  find_connector kind (c ∷ cs) = if serves kind c.name then some c else find_connector kind cs

  -- An action on a report may change the report that is held in memory.
  abbrev pub Act : Type 0
  Act = PipelineSecurityReport → World P → Result (Unit {0}) × PipelineSecurityReport × World P

  abbrev pub suspended_event : PipelineSecurityReport → String → Event
  suspended_event report source_name = record {
    namespace = report.meta.namespace;
    name = report.meta.name;
    type = "Warning";
    reason = "SyncSuspended";
    message = concat (
        "Sync suspended for " ∷ report.meta.namespace ∷ "/" ∷ source_name
        ∷ " due to policy violation" ∷ []);
  }

  module _ (connectors : List (PipelineConnector P.State)) (has_recorder : Bool) where
    -- `conn.Suspend` and what follows it.
    unfoldable pub suspend_by :
        PipelineConnector P.State
        → String
        → PipelineSource
        → PipelineSecurityReport
        → World P
        → Result (Unit {0}) × World P
    suspend_by conn source_name src report w =
        let (answer, w') = write P (λ s. conn.suspend s src) w in
        elim answer [
          | err e ↦ (
            err (wrap (concat ("suspending " ∷ source_name ∷ " via " ∷ conn.name ∷ ": " ∷ [])) e),
            w',
          )
          | ok done ↦
              (ok tt, if has_recorder then emit P (suspended_event report source_name) w' else w')
        ]

    -- From the labels on: after the grace period, or without one.
    unfoldable pub suspend_now : PipelineSecurityReport → World P → Result (Unit {0}) × World P
    suspend_now report w =
        let source_name = text_at label_source_name report.meta.labels in
        let source_kind = text_at label_source_kind report.meta.labels in
        if source_name == "" || source_kind == ""
        then (
          err (failure (concat ("report " ∷ report.meta.name ∷ " missing source labels" ∷ []))),
          w,
        )
        else elim (lookup source_name w.registry) [
          | none ↦
              (err (failure (concat ("source " ∷ source_name ∷ " not found in registry" ∷ []))), w)
          | some src ↦ elim (find_connector source_kind connectors) [
            | none ↦ (err (failure ("no connector found for source kind " <> source_kind)), w)
            | some conn ↦ suspend_by conn source_name src report w
          ]
        ]

    -- The first detection is marked, and nothing is suspended.
    unfoldable pub start_grace : Act
    start_grace report w =
        let report' = annotate annotation_first_detected (P.format_rfc3339 (P.now w.api)) report in
        let (answer, w') = write P (λ s. P.update_report s report') w in
        elim answer [
          | err e ↦ (err (wrap "setting first-detected annotation: " e), report', w')
          | ok done ↦ (ok tt, report', w')
        ]

    abbrev pub keeping :
        PipelineSecurityReport
        → Result (Unit {0}) × World P
        → Result (Unit {0}) × PipelineSecurityReport × World P
    keeping report (answer, w) = (answer, report, w)

    -- With a grace period: its start, its run and its end.
    unfoldable pub within_grace : ℤ → Act
    within_grace grace report w =
        let first_detected = text_at annotation_first_detected report.meta.annotations in
        if first_detected == ""
        then start_grace report w
        else elim (P.parse_rfc3339 first_detected) [
          | err e ↦ (err (wrap "parsing first-detected time: " e), report, w)
          | ok detected_time ↦
              if ltb_ℤ (time_sub (P.now w.api) detected_time) grace
              then (ok tt, report, w)
              else keeping report (suspend_now report w)
        ]

    -- `executeSuspendSync`
    unfoldable pub execute_suspend_sync : EnforcementAction → Act
    execute_suspend_sync action report w =
        if action.grace_period == ""
        then keeping report (suspend_now report w)
        else elim (P.parse_duration action.grace_period) [
          | err e ↦ (
            err (wrap (concat ("parsing grace period " ∷ quote action.grace_period ∷ ": " ∷ [])) e),
            report,
            w,
          )
          | ok grace ↦ within_grace grace report w
        ]

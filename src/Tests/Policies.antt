-- ===== src/Tests/Policies.antt =====
-- Runs and theorems about policies and their enforcement.
use fluxgate_operator.Prelude.{
  ◌≤◌, ◌⊎◌, ◌≡◌, ◌≢◌, ◌↔◌, not, refl, true, false, All, List, [], ◌∷◌, lookup, none, Error, ok, err,
  not_found, failure, String, equal_fold, pos, time_sub, ltb_ℤ, if◌then◌else◌, text_at, ℤ, ◌*◌,
  eqb_ℤ,
}
use fluxgate_operator.Api.{EnforcementAction, PipelineSecurityPolicy, PipelineSecurityReport}
use fluxgate_operator.Connector.Flux.{kustomization_source}
use fluxgate_operator.Platform.{no_requeue, requeue, minute, NamespacedName}
use fluxgate_operator.Platform.World.{World}
use fluxgate_operator.Controller.Discovery.{register}
use fluxgate_operator.Controller.Policy.Select.{label_source_kind, selector_matches}
use fluxgate_operator.Controller.Policy.Select.Laws.{Any, selector_matches_iff}
use fluxgate_operator.Controller.Policy.Thresholds.{evaluate_thresholds, trigger_matches}
use fluxgate_operator.Controller.Policy.Thresholds.Laws.{
  evaluate_thresholds-gravest_reason, Level, level_name, level_rank, trigger_matches_iff,
}
use fluxgate_operator.Controller.Policy.Suspend.{
  annotation_first_detected, annotate, execute_suspend_sync, suspend_now,
}
use fluxgate_operator.Controller.Policy.Suspend.Laws.{execute_suspend_sync-timeline}
use fluxgate_operator.Controller.Policy.Suspend.Missed.{suspend_now-kustomization}
use fluxgate_operator.Controller.Policy.Restore.{
  enforcement_keys, resume_and_unlabel, restore_compliance,
}
use fluxgate_operator.Controller.Policy.Restore.Laws.{
  is_one_of, IsUpdated, restore_compliance-annotations,
}
use fluxgate_operator.Controller.Policy.Enforce.{run_actions, enforce_all, activated, reconcile}
use fluxgate_operator.Controller.Policy.Enforce.Laws.{IsRun, run_actions-IsRun}
use fluxgate_operator.Controller.Policy.Enforce.Reconcile.{reconcile-outcome}
use fluxgate_operator.Tests.Memory.{repository, kustomization, memory}
use fluxgate_operator.Tests.Data.{
  finding, counted, labels_for, report_of, shop_report, thresholds_of, action_of, policy_of,
  actions, strict, world_with, connectors,
}

selector_matches_iff_example : (selector_matches memory.unicode strict shop_report ≡ true) ↔ (
    ((strict.spec.selector.cicd_kinds ≡ [])
      ⊎ Any
          (λ kind.
            equal_fold memory.unicode kind (text_at label_source_kind shop_report.meta.labels)
            ≡ true)
          strict.spec.selector.cicd_kinds)
    × All
        (λ (key, val). text_at key shop_report.meta.labels ≡ val)
        strict.spec.selector.match_labels)
selector_matches_iff_example = selector_matches_iff memory.unicode strict shop_report

evaluate_thresholds-gravest_reason_example :
    evaluate_thresholds memory.unicode strict shop_report ≡ "NonCompliant"
evaluate_thresholds-gravest_reason_example =
    evaluate_thresholds-gravest_reason memory.unicode strict shop_report

abbrev lenient : PipelineSecurityPolicy
lenient = policy_of [] (thresholds_of (pos 0) (pos 5) false) (pos 0) actions

trigger_matches_iff_example : (trigger_matches "Warning" "Critical" ≡ true) ↔ (
    (a b : Level) × ("Warning" ≡ level_name a)
    × ("Critical" ≡ level_name b)
    × (level_rank a ≤ level_rank b))
trigger_matches_iff_example = trigger_matches_iff "Warning" "Critical"

abbrev marked_report : PipelineSecurityReport
marked_report = annotate annotation_first_detected "2026-01-01T00:00:00Z" shop_report

abbrev suspend_after_day : EnforcementAction
suspend_after_day = action_of "suspendSync" "Critical" "24h"

execute_suspend_sync-timeline_example :
    let w = world_with [] (pos 0) in
    let v = world_with [] (pos 90000000000000) in
    ((execute_suspend_sync memory connectors true suspend_after_day shop_report w).1
      ≡ marked_report)
    × ((execute_suspend_sync memory connectors true suspend_after_day shop_report w).2
        ≡ record w { api = (memory.update_report w.api marked_report).1 })
    × (execute_suspend_sync memory connectors true suspend_after_day marked_report v ≡ (
        if ltb_ℤ (time_sub (pos 90000000000000) (pos 0)) (pos 86400000000000)
        then (ok tt, marked_report, v)
        else (let (answer, v') = suspend_now memory connectors true marked_report v in
            (answer, marked_report, v'))))
unfolding text_at lookup
execute_suspend_sync-timeline_example =
    execute_suspend_sync-timeline memory connectors true suspend_after_day shop_report
      (world_with [] (pos 0)) (world_with [] (pos 90000000000000)) (pos 86400000000000) (pos 0)
      (λ h. cc) refl refl (λ h. cc) refl

abbrev tekton_report : PipelineSecurityReport
tekton_report =
    report_of (labels_for "Pipeline" "shop") [] "Critical" (counted (pos 1) (pos 0) (pos 0) (pos 1))
      (finding "critical" ∷ [])

-- The registry after the source of a Kustomization was found.
abbrev kustomized : World memory
kustomized = record (world_with [] (pos 0)) {
  registry = register (kustomization_source repository "acme" "shop" kustomization) [];
}

abbrev kustomization_report : PipelineSecurityReport
kustomization_report =
    report_of (labels_for "Kustomization" "ks") [] "Critical"
      (counted (pos 1) (pos 0) (pos 0) (pos 1)) (finding "critical" ∷ [])

suspend_now-kustomization_example :
    ((suspend_now memory connectors true kustomization_report kustomized).0 ≢ ok tt)
    × ((suspend_now memory connectors true kustomization_report kustomized).1 ≡ kustomized)
unfolding text_at lookup kustomization_source
suspend_now-kustomization_example =
    suspend_now-kustomization memory connectors true repository "acme" "shop" kustomization []
      kustomization_report kustomized refl refl refl

restore_compliance-annotations_example :
    let w = world_with [] (pos 0) in
    let x = restore_compliance memory connectors true marked_report w in
    let r' = x.1 in
    ((k : String)
      → lookup k r'.meta.annotations
        ≡ (if is_one_of enforcement_keys k then none else lookup k marked_report.meta.annotations))
    × (r'.meta.labels ≡ marked_report.meta.labels)
    × (r'.meta.name ≡ "psr-acme-shop")
    × (r'.meta.namespace ≡ "ci")
    × (r'.status ≡ marked_report.status)
    × ((All (λ key. lookup key marked_report.meta.annotations ≡ none) enforcement_keys
          × (x.0 ≡ ok tt)
          × (x.2 ≡ resume_and_unlabel memory connectors true r' w))
        ⊎ (Any (λ key. lookup key marked_report.meta.annotations ≢ none) enforcement_keys
            × IsUpdated memory connectors true r' w (x.0, x.2)))
restore_compliance-annotations_example =
    restore_compliance-annotations memory connectors true marked_report (world_with [] (pos 0))

run_actions-IsRun_example :
    IsRun memory connectors true "NonCompliant" actions shop_report
      (world_with [] (pos 0))
      (run_actions memory connectors true actions "NonCompliant" shop_report
        (world_with [] (pos 0))).0
      (run_actions memory connectors true actions "NonCompliant" shop_report
        (world_with [] (pos 0))).1
run_actions-IsRun_example =
    run_actions-IsRun memory connectors true "NonCompliant" actions shop_report
      (world_with [] (pos 0))

abbrev only_suspends : PipelineSecurityPolicy
only_suspends = policy_of [] (thresholds_of (pos 0) (pos 0) false) (pos 0) (suspend_after_day ∷ [])

abbrev strict_key : NamespacedName
strict_key = record { name = "strict"; namespace = "ci" }

reconcile-outcome_example :
    let w = world_with (shop_report ∷ []) (pos 0) in
    let run = reconcile memory connectors true strict_key w in
    ((m : String) × (memory.get_policy w.api strict_key ≡ err (not_found m))
      × (run ≡ (ok no_requeue, w)))
    ⊎ ((m : String) × (memory.get_policy w.api strict_key ≡ err (failure m))
        × (run ≡ (err (failure m), w)))
    ⊎ ((p : PipelineSecurityPolicy) × (e : Error) × (memory.get_policy w.api strict_key ≡ ok p)
        × (memory.list_reports w.api p.meta.namespace ≡ err e)
        × (run ≡ (err e, w)))
    ⊎ ((p : PipelineSecurityPolicy) × (reports : List PipelineSecurityReport) × (memory.get_policy
            w.api strict_key
          ≡ ok p)
        × (memory.list_reports w.api p.meta.namespace ≡ ok reports)
        × (((e : Error) × ((memory.update_policy_status
                  (enforce_all memory connectors true p reports w).api
                  (activated memory connectors true p reports)).0
                ≡ err e)
              × (run.0 ≡ err e))
            ⊎ ((delay : ℤ) × (run.0 ≡ ok (requeue delay))
                × (delay ≢ pos 0)
                × (ltb_ℤ (pos 0) delay ≡ not (ltb_ℤ p.spec.evaluation_interval (pos 0)))
                × (delay ≡ (
                    if eqb_ℤ p.spec.evaluation_interval (pos 0)
                    then pos (5 * minute)
                    else p.spec.evaluation_interval)))))
reconcile-outcome_example =
    reconcile-outcome memory connectors true strict_key (world_with (shop_report ∷ []) (pos 0))

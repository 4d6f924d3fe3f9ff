-- ===== src/Tests/Suspension.antt =====
-- A critical finding of an Application, and the round of the policy that suspends its sync; and a
-- round that resumes one.
use fluxgate_operator.Prelude.{
  true, false, List, [], ◌∷◌, ◌++◌, ok, pos, ◌>>=◌, ◌≡◌, refl, lookup, text_at, equal_fold,
}
use fluxgate_operator.Api.{EnforcementAction, PipelineSecurityPolicy, PipelineSecurityReport}
use fluxgate_operator.Connector.ArgoCd.{argo_cd_suspend_patch, argo_cd_resume_patch}
use fluxgate_operator.Connector.Common.{source_key}
use fluxgate_operator.Connector.Types.{PipelineSource}
use fluxgate_operator.Platform.{Manager, NamespacedName, requeue}
use fluxgate_operator.Platform.World.{World}
use fluxgate_operator.Controller.Policy.Enforce.{activated, requeue_delay}
use fluxgate_operator.Controller.Policy.Select.{kinds_match, labels_match, selector_matches}
use fluxgate_operator.Controller.Policy.Thresholds.Laws.{critical}
use fluxgate_operator.Operator.{connectors, policy, reconcile}
use fluxgate_operator.Controller.Policy.Thresholds.{evaluate_thresholds}
use fluxgate_operator.Operator.Restoration.{restored, reconcile-resumes}
use fluxgate_operator.Operator.Enforcement.{suspended, reconcile-suspends}
use fluxgate_operator.Tests.Memory.{Cluster, find_policy, memory}
use fluxgate_operator.Tests.Data.{
  finding, counted, labels_for, report_of, application_labels, thresholds_of, action_of, policy_of,
  cluster_with, world_with, shop,
}

abbrev suspend_at_once : EnforcementAction
suspend_at_once = action_of "suspendSync" "Critical" ""

-- A policy for Applications.
abbrev guard : PipelineSecurityPolicy
guard =
    policy_of ("Application" ∷ []) (thresholds_of (pos 0) (pos 0) false) (pos 0)
      (suspend_at_once ∷ [])

abbrev critical_report : PipelineSecurityReport
critical_report =
    report_of application_labels [] "Critical" (counted (pos 1) (pos 0) (pos 0) (pos 1))
      (finding "critical" ∷ [])

abbrev pipeline_report : PipelineSecurityReport
pipeline_report =
    report_of (labels_for "Pipeline" "build") [] "Critical"
      (counted (pos 1) (pos 0) (pos 0) (pos 1)) (finding "critical" ∷ [])

abbrev guarded : World memory
guarded = record (world_with [] (pos 0)) {
  api = record (cluster_with (pipeline_report ∷ critical_report ∷ []) (pos 0)) {
    policies = guard ∷ [];
  };
}

abbrev ready : Manager
ready = record {
  get_config = ok tt;
  new_manager = ok tt;
  complete = λ kind name. ok tt;
  start = ok tt;
}

abbrev same : List PipelineSource → List PipelineSource
same srcs = srcs

abbrev strict_key : NamespacedName
strict_key = record { name = "strict"; namespace = "ci" }

-- The cluster once the Application was patched.
abbrev patched : Cluster
patched = record (cluster_with (pipeline_report ∷ critical_report ∷ []) (pos 0)) {
  policies = guard ∷ [];
  patched = (source_key shop, argo_cd_suspend_patch) ∷ [];
}

reconcile-suspends_example :
    let reports = (pipeline_report ∷ []) ++ (critical_report ∷ []) in
    let (answer, s') =
      memory.update_policy_status patched
        (activated memory (connectors memory) true guard reports) in
    reconcile memory "" ready same policy strict_key guarded ≡ (
      answer >>= λ _. ok (requeue (requeue_delay memory (connectors memory) true guard)),
      record (suspended memory patched critical_report guarded) { api = s' },
    )
unfolding find_policy selector_matches kinds_match equal_fold text_at lookup labels_match
reconcile-suspends_example =
    reconcile-suspends memory "" ready same strict_key guard (pipeline_report ∷ []) []
      critical_report shop suspend_at_once critical guarded patched refl refl refl (refl, tt) tt
      refl refl (refl, refl, refl) (refl, (λ h. cc), refl) refl

-- A policy that asks for nothing, and a report that was never enforced.
abbrev idle : PipelineSecurityPolicy
idle = policy_of ("Application" ∷ []) (thresholds_of (pos 0) (pos 0) false) (pos 0) []

abbrev clean_report : PipelineSecurityReport
clean_report =
    report_of application_labels [] "Compliant" (counted (pos 0) (pos 0) (pos 0) (pos 0)) []

abbrev quiet : World memory
quiet = record (world_with [] (pos 0)) {
  api = record (cluster_with (clean_report ∷ pipeline_report ∷ []) (pos 0)) {
    policies = idle ∷ [];
  };
}

abbrev resumed : Cluster
resumed = record (cluster_with (clean_report ∷ pipeline_report ∷ []) (pos 0)) {
  policies = idle ∷ [];
  patched = (source_key shop, argo_cd_resume_patch) ∷ [];
}

reconcile-resumes_example :
    let reports = [] ++ (clean_report ∷ pipeline_report ∷ []) in
    let v = restored memory resumed clean_report quiet in
    let (answer, s') =
      memory.update_policy_status v.api (activated memory (connectors memory) true idle reports) in
    reconcile memory "" ready same policy strict_key quiet ≡ (
      answer >>= λ _. ok (requeue (requeue_delay memory (connectors memory) true idle)),
      record v { api = s' },
    )
unfolding find_policy selector_matches kinds_match equal_fold text_at lookup labels_match
    evaluate_thresholds
reconcile-resumes_example =
    reconcile-resumes memory "" ready same strict_key idle [] (pipeline_report ∷ []) clean_report
      shop quiet resumed refl refl refl tt (refl, tt) refl (refl, (refl, (refl, tt)))
      (refl, (λ h. cc), refl) refl

-- ===== src/Operator/Restoration.antt =====
-- A round of a policy over the report of an ArgoCD Application that complies.
use fluxgate_operator.Prelude.{
  true, false, List, ◌∷◌, ◌++◌, All, lookup, none, text_at, ok, String, eqb_of_ne, ◌>>=◌, ◌≡◌, refl,
  ap,
}
use fluxgate_operator.Api.{PipelineSecurityPolicy, PipelineSecurityReport}
use fluxgate_operator.Connector.Types.{PipelineSource}
use fluxgate_operator.Connector.Common.{source_key}
use fluxgate_operator.Connector.ArgoCd.{argo_cd_gvk, argo_cd_connector, argo_cd_resume_patch}
use fluxgate_operator.Platform.{Platform, Manager, NamespacedName, requeue}
use fluxgate_operator.Platform.World.{World, emit}
use fluxgate_operator.Controller.Policy.Select.{label_source_name, selector_matches}
use fluxgate_operator.Controller.Policy.Thresholds.{evaluate_thresholds}
use fluxgate_operator.Controller.Policy.Workloads.{unlabel_all}
use fluxgate_operator.Controller.Policy.Restore.{
  enforcement_keys, resumed_event, resume_by, resume_sync, resume_and_unlabel,
}
use fluxgate_operator.Controller.Policy.Restore.Laws.{restore_compliance-clean}
use fluxgate_operator.Controller.Policy.Enforce
use fluxgate_operator.Controller.Policy.Enforce.{
  execute_enforcement, requeue_delay, activated, reconcile_reports,
}
use fluxgate_operator.Operator.{policy, connectors, reconcile}
use fluxgate_operator.Operator.Enforcement.{IsReportOf, find_connector-application, enforce_all-one}

module _ (P : Platform) where
  -- The world once the source is resumed: an event, and the API server after the patch and the removal of
  -- the risk labels.
  abbrev pub restored : P.State → PipelineSecurityReport → World P → World P
  restored s r w =
      record (emit P (resumed_event P r (text_at label_source_name r.meta.labels))
        (record w { api = s })) { api = unlabel_all P r.status.correlated_workloads s }

  module _ (r : PipelineSecurityReport) (src : PipelineSource) (w : World P) (s : P.State)
      (of_src : IsReportOf P w src r)
      (patched : P.patch_object w.api
          (argo_cd_gvk "Application")
          (source_key src)
          argo_cd_resume_patch
        ≡ (ok tt, s)) where
    resume_by-application :
        (name : String)
        → resume_by P (connectors P) true (argo_cd_connector P) name src r w
          ≡ emit P (resumed_event P r name) (record w { api = s })
    unfolding resume_by
    resume_by-application name =
        rw (patched, resume_by)
          (ap (λ x. emit P (resumed_event P r name) (record w { api = x.1 })) patched)

    resume_sync-application :
        resume_sync P (connectors P) true r w
        ≡ emit P
            (resumed_event P r (text_at label_source_name r.meta.labels))
            (record w { api = s })
    unfolding resume_sync
    resume_sync-application =
        let (kind, named, found) = of_src in
        rw
          (
            eqb_of_ne _ "" named,
            found,
            kind,
            find_connector-application P,
            resume_by-application (text_at label_source_name r.meta.labels),
          )
          refl

    execute_enforcement-compliant :
        (p : PipelineSecurityPolicy)
        → evaluate_thresholds P.unicode p r ≡ "Compliant"
        → All (λ key. lookup key r.meta.annotations ≡ none) enforcement_keys
        → execute_enforcement P (connectors P) true p r (evaluate_thresholds P.unicode p r) w
          ≡ (ok tt, r, restored s r w)
    unfolding execute_enforcement resume_and_unlabel
    execute_enforcement-compliant p compliant unmarked =
        rw
          (
            compliant,
            restore_compliance-clean P (connectors P) true r w unmarked,
            resume_sync-application,
          )
          refl

  module _ (token : String) (mgr : Manager) where
    -- A round of a policy, whatever its actions are and even where it has none, which selects one of the
    -- reports of its namespace: where that report is at the level "Compliant", carries no annotation of
    -- enforcement and names an Application that the registry has, and the API server accepts the
    -- patch, the round sends that Application the patch that turns automatic sync on by the
    -- connector of ArgoCD, records the event that its sync is resumed, runs the removal of the risk labels
    -- of the report's workloads, touches no other report or source, and then writes the status of the
    -- policy and asks for the next round.
    pub reconcile-resumes :
        (order : List PipelineSource → List PipelineSource) (nn : NamespacedName)
        (p : PipelineSecurityPolicy) (before after : List PipelineSecurityReport)
        (r : PipelineSecurityReport) (src : PipelineSource) (w : World P) (s : P.State)
        → P.get_policy w.api nn ≡ ok p
        → P.list_reports w.api p.meta.namespace ≡ ok (before ++ (r ∷ after))
        → selector_matches P.unicode p r ≡ true
        → All (λ x. selector_matches P.unicode p x ≡ false) before
        → All (λ x. selector_matches P.unicode p x ≡ false) after
        → evaluate_thresholds P.unicode p r ≡ "Compliant"
        → All (λ key. lookup key r.meta.annotations ≡ none) enforcement_keys
        → IsReportOf P w src r
        → P.patch_object w.api (argo_cd_gvk "Application") (source_key src) argo_cd_resume_patch
          ≡ (ok tt, s)
        → let reports = before ++ (r ∷ after) in
          let v = restored s r w in
          let (answer, s') =
            P.update_policy_status v.api (activated P (connectors P) true p reports) in
          reconcile P token mgr order policy nn w ≡ (
            answer >>= λ _. ok (requeue (requeue_delay P (connectors P) true p)),
            record v { api = s' },
          )
    unfolding reconcile Enforce.reconcile reconcile_reports
    reconcile-resumes order nn p before after r src w s got listed selected out out' compliant
          unmarked of_src patched =
        let done = execute_enforcement-compliant r src w s of_src patched p compliant unmarked in
        rw
          (
            reconcile,
            got,
            Enforce.reconcile,
            listed,
            enforce_all-one P r p before after w (restored s r w) selected out out' done,
          )
          refl

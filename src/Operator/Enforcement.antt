-- ===== src/Operator/Enforcement.antt =====
-- From a finding to the sync of its source: a round of a policy over the report of an ArgoCD Application.
use fluxgate_operator.Prelude.{
  true, false, List, [], ◌∷◌, ◌++◌, All, lookup, text_at, some, ok, String, eqb_of_ne, ltb_ℤ, ◌>>=◌,
  ◌≤◌, ◌≡◌, ◌≢◌, refl, ◌∙◌, ap, arith,
}
use fluxgate_operator.Api.{EnforcementAction, PipelineSecurityPolicy, PipelineSecurityReport}
use fluxgate_operator.Connector.Types.{PipelineSource}
use fluxgate_operator.Connector.Common.{source_key}
use fluxgate_operator.Connector.ArgoCd.{argo_cd_gvk, argo_cd_connector, argo_cd_suspend_patch}
use fluxgate_operator.Platform.{Platform, Manager, NamespacedName, requeue}
use fluxgate_operator.Platform.World.{World, measure, emit, enforcement_actions}
use fluxgate_operator.Controller.Policy.Select.{
  label_source_kind, label_source_name, selector_matches,
}
use fluxgate_operator.Controller.Policy.Thresholds.{evaluate_thresholds}
use fluxgate_operator.Controller.Policy.Thresholds.Laws.{
  Level, warning, non_compliant, critical, level_name, level_rank, trigger_matches-names,
}
use fluxgate_operator.Controller.Policy.Suspend.{
  serves, find_connector, suspended_event, suspend_by, suspend_now, execute_suspend_sync,
}
use fluxgate_operator.Controller.Policy.Enforce.{
  execute_action, record_action, run_actions, execute_enforcement, enforce_all, requeue_delay,
  activated, reconcile_reports,
}
use fluxgate_operator.Controller.Policy.Enforce
use fluxgate_operator.Operator.{policy, connectors, reconcile}

level_rank-le : (l : Level) → level_rank l ≤ level_rank critical
level_rank-le warning = omega arith
level_rank-le non_compliant = omega arith
level_rank-le critical = omega arith

-- An action that suspends the sync at once, from one of the three levels on.
abbrev pub SuspendsFrom : Level → EnforcementAction → Type 0
SuspendsFrom l a = (a.action ≡ "suspendSync") × (a.grace_period ≡ "") × (a.trigger ≡ level_name l)

-- The report is that of an Application, which the registry has as `src`.
abbrev pub IsReportOf : (P : Platform) → World P → PipelineSource → PipelineSecurityReport → Type 0
IsReportOf P w src r =
    (text_at label_source_kind r.meta.labels ≡ "Application")
    × (text_at label_source_name r.meta.labels ≢ "")
    × (lookup (text_at label_source_name r.meta.labels) w.registry ≡ some src)

module _ (P : Platform) where
  -- The world once the source is suspended: the API server after the patch, an event and a count.
  abbrev pub suspended : P.State → PipelineSecurityReport → World P → World P
  suspended s r w = measure P (enforcement_actions "suspendSync" r.meta.namespace r.meta.name) (
      emit P (suspended_event P r (text_at label_source_name r.meta.labels)) (record w { api = s }))

  -- Reports that a policy does not select are passed over.
  enforce_all-unselected :
      (p : PipelineSecurityPolicy) (rs : List PipelineSecurityReport) (w : World P)
      → All (λ r. selector_matches P.unicode p r ≡ false) rs
      → enforce_all P (connectors P) true p rs w ≡ w
  unfolding enforce_all
  enforce_all-unselected p [] w h = refl
  enforce_all-unselected p (r ∷ rs) w (out, h) = rw out (enforce_all-unselected p rs w h)

  enforce_all-append :
      (p : PipelineSecurityPolicy) (rs rs' : List PipelineSecurityReport) (w : World P)
      → enforce_all P (connectors P) true p (rs ++ rs') w
        ≡ enforce_all P (connectors P) true p rs' (enforce_all P (connectors P) true p rs w)
  unfolding enforce_all
  enforce_all-append p [] rs' w = refl
  enforce_all-append p (r ∷ rs) rs' w = enforce_all-append p rs rs' _

  -- The loop over reports of which the policy selects one alone.
  pub enforce_all-one :
      (r : PipelineSecurityReport) (p : PipelineSecurityPolicy)
      (before after : List PipelineSecurityReport) (w v : World P)
      → selector_matches P.unicode p r ≡ true
      → All (λ x. selector_matches P.unicode p x ≡ false) before
      → All (λ x. selector_matches P.unicode p x ≡ false) after
      → execute_enforcement P (connectors P) true p r (evaluate_thresholds P.unicode p r) w
        ≡ (ok tt, r, v)
      → enforce_all P (connectors P) true p (before ++ (r ∷ after)) w ≡ v
  unfolding enforce_all
  enforce_all-one r p before after w v selected out out' done =
      enforce_all-append p before (r ∷ after) w
      ∙ rw (enforce_all-unselected p before w out, selected, done)
          (enforce_all-unselected p after v out')

  pub find_connector-application :
      find_connector P "Application" (connectors P) ≡ some (argo_cd_connector P)
  unfolding find_connector serves
  find_connector-application = refl

  module _ (r : PipelineSecurityReport) (src : PipelineSource) (w : World P) (s : P.State)
      (of_src : IsReportOf P w src r)
      (patched : P.patch_object w.api
          (argo_cd_gvk "Application")
          (source_key src)
          argo_cd_suspend_patch
        ≡ (ok tt, s)) where
    suspend_by-application :
        (name : String)
        → suspend_by P (connectors P) true (argo_cd_connector P) name src r w
          ≡ (ok tt, emit P (suspended_event P r name) (record w { api = s }))
    unfolding suspend_by
    suspend_by-application name =
        rw (patched, suspend_by)
          (ap (λ x. (ok tt, emit P (suspended_event P r name) (record w { api = x.1 }))) patched)

    suspend_now-application : suspend_now P (connectors P) true r w ≡ (
      ok tt,
      emit P (suspended_event P r (text_at label_source_name r.meta.labels)) (record w { api = s }),
    )
    unfolding suspend_now
    suspend_now-application =
        let (kind, named, found) = of_src in
        rw
          (
            eqb_of_ne _ "" named,
            found,
            kind,
            find_connector-application,
            suspend_by-application (text_at label_source_name r.meta.labels),
          )
          refl

    run_actions-suspension :
        (a : EnforcementAction) (l : Level)
        → SuspendsFrom l a
        → run_actions P (connectors P) true (a ∷ []) "Critical" r w ≡ (r, suspended s r w)
    unfolding run_actions execute_action record_action execute_suspend_sync
    run_actions-suspension a l (suspends, at_once, from) =
        rw
          (
            from,
            trigger_matches-names l critical (level_rank-le l),
            suspends,
            at_once,
            suspend_now-application,
          )
          refl

    -- A violation of the critical threshold, by a policy whose one action is a suspension.
    execute_enforcement-suspension :
        (p : PipelineSecurityPolicy) (a : EnforcementAction) (l : Level)
        → ltb_ℤ p.spec.thresholds.max_critical r.status.summary.critical ≡ true
        → p.spec.enforcement ≡ a ∷ []
        → SuspendsFrom l a
        → execute_enforcement P (connectors P) true p r (evaluate_thresholds P.unicode p r) w
          ≡ (ok tt, r, suspended s r w)
    unfolding evaluate_thresholds execute_enforcement
    execute_enforcement-suspension p a l exceeded only suspension =
        rw (exceeded, only, run_actions-suspension a l suspension) refl

  module _ (token : String) (mgr : Manager) where
    -- A round of a policy whose one action suspends the sync at once, from whichever level on, and which
    -- selects one of the reports of its namespace: where that report has more critical findings than
    -- the policy allows and names an Application that the registry has, and the API server accepts
    -- the patch, the round suspends that Application by the connector of ArgoCD, records the event
    -- and counts the action, touches no other report or source, and then writes the status of the
    -- policy and asks for the next round.
    pub reconcile-suspends :
        (order : List PipelineSource → List PipelineSource) (nn : NamespacedName)
        (p : PipelineSecurityPolicy) (before after : List PipelineSecurityReport)
        (r : PipelineSecurityReport) (src : PipelineSource) (a : EnforcementAction) (l : Level)
        (w : World P) (s : P.State)
        → P.get_policy w.api nn ≡ ok p
        → P.list_reports w.api p.meta.namespace ≡ ok (before ++ (r ∷ after))
        → selector_matches P.unicode p r ≡ true
        → All (λ x. selector_matches P.unicode p x ≡ false) before
        → All (λ x. selector_matches P.unicode p x ≡ false) after
        → ltb_ℤ p.spec.thresholds.max_critical r.status.summary.critical ≡ true
        → p.spec.enforcement ≡ a ∷ []
        → SuspendsFrom l a
        → IsReportOf P w src r
        → P.patch_object w.api (argo_cd_gvk "Application") (source_key src) argo_cd_suspend_patch
          ≡ (ok tt, s)
        → let reports = before ++ (r ∷ after) in
          let (answer, s') = P.update_policy_status s (activated P (connectors P) true p reports) in
          reconcile P token mgr order policy nn w ≡ (
            answer >>= λ _. ok (requeue (requeue_delay P (connectors P) true p)),
            record (suspended s r w) { api = s' },
          )
    unfolding reconcile Enforce.reconcile reconcile_reports
    reconcile-suspends order nn p before after r src a l w s got listed selected out out' exceeded
          only suspension of_src patched =
        let done =
          execute_enforcement-suspension r src w s of_src patched p a l exceeded only suspension in
        rw
          (
            reconcile,
            got,
            Enforce.reconcile,
            listed,
            enforce_all-one r p before after w (suspended s r w) selected out out' done,
          )
          refl

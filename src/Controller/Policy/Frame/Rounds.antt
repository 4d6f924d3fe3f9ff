-- ===== src/Controller/Policy/Frame/Rounds.antt =====
-- The enforcement of policies, and a whole reconciliation, as steps that keep the registry, the cache and
-- what the writes keep.
use fluxgate_operator.Prelude.{
  if◌then◌else◌, Bool, List, [], ◌∷◌, All, Result, Result-cases, Option-cases, Bool-cases, none,
  some, String, ◌==◌, refl, inl, inr, ok, err, Option,
}
use fluxgate_operator.Api.{
  AlertTarget, EnforcementAction, PipelineSecurityPolicy, PipelineSecurityReport,
}
use fluxgate_operator.Alert.{send_slack, send_webhook}
use fluxgate_operator.Connector.Types.{PipelineConnector}
use fluxgate_operator.Platform.{Platform, NamespacedName}
use fluxgate_operator.Platform.World.{World}
use fluxgate_operator.Controller.Policy.Select.{selector_matches}
use fluxgate_operator.Controller.Policy.Thresholds.{evaluate_thresholds, trigger_matches}
use fluxgate_operator.Controller.Policy.Workloads.{execute_label_workloads}
use fluxgate_operator.Controller.Policy.Enforce.{
  annotated, execute_annotate, alert_target, execute_alert, execute_action, record_action,
  run_actions, execute_enforcement, enforce_all, activated, reconcile_reports, reconcile,
}
use fluxgate_operator.Controller.Policy.Frame.{
  Keeps, ConnectorKeeps, Frame, Frame-refl, Frame-trans, label_all-keeps,
}
use fluxgate_operator.Controller.Policy.Frame.Sync.{
  execute_suspend_sync-Frame, restore_compliance-Frame,
}

module _ (P : Platform) (I : P.State → Type 0) (k : Keeps P I) where
  execute_annotate-Frame :
      (r : PipelineSecurityReport) (w : World P) → Frame P I w (execute_annotate P r w).2
  unfolding execute_annotate
  execute_annotate-Frame r w = elim (Result-cases (P.update_report w.api (annotated r)).0) [
    | inl (e, h) ↦ rw (h, execute_annotate) (refl, refl, k.report w.api (annotated r))
    | inr (x, h) ↦ rw (h, execute_annotate) (refl, refl, k.report w.api (annotated r))
  ]

  alert_target-Frame :
      (t : AlertTarget) (r : PipelineSecurityReport) (level : String) (w : World P)
      → Frame P I w (alert_target P t r level w).1
  unfolding alert_target send_slack send_webhook
  alert_target-Frame t r level w = elim (Bool-cases (t.type == "slack")) [
    | inl slack ↦ elim (Bool-cases (t.url == "")) [
      | inl bare ↦ rw (slack, bare) (Frame-refl P I w)
      | inr url ↦ rw (slack, url) (refl, refl, k.post w.api _ _)
    ]
    | inr other ↦ elim (Bool-cases (t.type == "webhook")) [
      | inl hook ↦ elim (Bool-cases (t.url == "")) [
        | inl bare ↦ rw (other, hook, bare) (Frame-refl P I w)
        | inr url ↦ rw (other, hook, url) (refl, refl, k.post w.api _ _)
      ]
      | inr unknown ↦ rw (other, unknown) (Frame-refl P I w)
    ]
  ]

  execute_alert-Frame :
      (a : EnforcementAction) (r : PipelineSecurityReport) (level : String) (w : World P)
      → Frame P I w (execute_alert P a r level w).1
  unfolding execute_alert
  execute_alert-Frame a r level w = elim (Option-cases a.alert_target) [
    | inl none_set ↦ rw (none_set, execute_alert) (Frame-refl P I w)
    | inr (t, h) ↦ rw (h, execute_alert) (alert_target-Frame t r level w)
  ]

  module _ (cs : List (PipelineConnector P.State)) (rec : Bool)
      (kcs : All (ConnectorKeeps P I) cs) where
    execute_action-Frame :
        (a : EnforcementAction) (level : String) (r : PipelineSecurityReport) (w : World P)
        → Frame P I w (execute_action P cs rec a level r w).2
    unfolding execute_action execute_label_workloads
    execute_action-Frame a level r w = elim (Bool-cases (a.action == "annotate")) [
      | inl h ↦ rw h (execute_annotate-Frame r w)
      | inr h ↦ elim (Bool-cases (a.action == "alert")) [
        | inl g ↦ rw (h, g) (execute_alert-Frame a r level w)
        | inr g ↦ elim (Bool-cases (a.action == "suspendSync")) [
          | inl f ↦ rw (h, g, f) (execute_suspend_sync-Frame P I k cs rec kcs a r w)
          | inr f ↦ elim (Bool-cases (a.action == "labelWorkloads")) [
            | inl e ↦
                rw (h, g, f, e)
                  (refl, refl, label_all-keeps P I k _ r.status.correlated_workloads w.api)
            | inr e ↦ rw (h, g, f, e) (Frame-refl P I w)
          ]
        ]
      ]
    ]

    record_action-Frame :
        (a : EnforcementAction) (u : World P)
        (x : Option (Result (Unit {0})) × PipelineSecurityReport × World P)
        → Frame P I u x.2
        → Frame P I u (record_action P cs rec a x).1
    unfolding record_action
    record_action-Frame a u (none, r, w) f = f
    record_action-Frame a u (some (ok done), r, w) f = f
    record_action-Frame a u (some (err e), r, w) f = f

    -- One action of the list, triggered or not.
    abbrev turn :
        EnforcementAction
        → String
        → PipelineSecurityReport
        → World P
        → PipelineSecurityReport × World P
    turn a level r w =
        if trigger_matches a.trigger level
        then record_action P cs rec a (execute_action P cs rec a level r w)
        else (r, w)

    turn-Frame :
        (a : EnforcementAction) (level : String) (r : PipelineSecurityReport) (w : World P)
        → Frame P I w (turn a level r w).1
    turn-Frame a level r w = elim (Bool-cases (trigger_matches a.trigger level)) [
      | inl on ↦ rw on (
          record_action-Frame a w (execute_action P cs rec a level r w)
            (execute_action-Frame a level r w))
      | inr off ↦ rw off (Frame-refl P I w)
    ]

    run_actions-Frame :
        (actions : List EnforcementAction) (level : String) (r : PipelineSecurityReport)
        (w : World P)
        → Frame P I w (run_actions P cs rec actions level r w).1
    unfolding run_actions
    run_actions-Frame [] level r w = Frame-refl P I w
    run_actions-Frame (a ∷ actions) level r w =
        let (r', w') = turn a level r w in
        Frame-trans P I w w' (run_actions P cs rec actions level r' w').1 (turn-Frame a level r w)
          (run_actions-Frame actions level r' w')

    execute_enforcement-Frame :
        (p : PipelineSecurityPolicy) (r : PipelineSecurityReport) (level : String) (w : World P)
        → Frame P I w (execute_enforcement P cs rec p r level w).2
    unfolding execute_enforcement
    execute_enforcement-Frame p r level w = elim (Bool-cases (level == "Compliant")) [
      | inl good ↦ rw good (restore_compliance-Frame P I k cs rec kcs r w)
      | inr bad ↦ rw bad (run_actions-Frame p.spec.enforcement level r w)
    ]

    -- One report of the list, selected or not.
    abbrev enforced : PipelineSecurityPolicy → PipelineSecurityReport → World P → World P
    enforced p r w =
        if selector_matches P.unicode p r
        then (execute_enforcement P cs rec p r (evaluate_thresholds P.unicode p r) w).2
        else w

    enforced-Frame :
        (p : PipelineSecurityPolicy) (r : PipelineSecurityReport) (w : World P)
        → Frame P I w (enforced p r w)
    enforced-Frame p r w = elim (Bool-cases (selector_matches P.unicode p r)) [
      | inl on ↦ rw on (execute_enforcement-Frame p r (evaluate_thresholds P.unicode p r) w)
      | inr off ↦ rw off (Frame-refl P I w)
    ]

    enforce_all-Frame :
        (p : PipelineSecurityPolicy) (rs : List PipelineSecurityReport) (w : World P)
        → Frame P I w (enforce_all P cs rec p rs w)
    unfolding enforce_all
    enforce_all-Frame p [] w = Frame-refl P I w
    enforce_all-Frame p (r ∷ rs) w =
        let w' = enforced p r w in
        Frame-trans P I w w' (enforce_all P cs rec p rs w') (enforced-Frame p r w)
          (enforce_all-Frame p rs w')

    reconcile_reports-Frame :
        (p : PipelineSecurityPolicy) (rs : List PipelineSecurityReport) (w : World P)
        → Frame P I w (reconcile_reports P cs rec p rs w).1
    unfolding reconcile_reports
    reconcile_reports-Frame p rs w =
        let w' = enforce_all P cs rec p rs w in
        Frame-trans P I w w' (reconcile_reports P cs rec p rs w).1 (enforce_all-Frame p rs w)
          (refl, refl, k.policy w'.api (activated P cs rec p rs))

    -- Whatever a reconciliation of a policy does and however it ends: the registry and the cache are as
    -- before, and what its writes and those of the connectors keep holds after it if it held before.
    pub reconcile-Frame :
        (nn : NamespacedName) (w : World P) → Frame P I w (reconcile P cs rec nn w).1
    unfolding reconcile
    reconcile-Frame nn w = elim (Result-cases (P.get_policy w.api nn)) [
      | inl (e, h) ↦ rw (h, reconcile) (Frame-refl P I w)
      | inr (p, h) ↦ elim (Result-cases (P.list_reports w.api p.meta.namespace)) [
        | inl (e, g) ↦ rw (h, reconcile, g) (Frame-refl P I w)
        | inr (rs, g) ↦ rw (h, reconcile, g) (reconcile_reports-Frame p rs w)
      ]
    ]

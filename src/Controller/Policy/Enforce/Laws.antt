-- ===== src/Controller/Policy/Enforce/Laws.antt =====
-- What the enforcement of a policy may change, and what it counts.
use mathlib.Core.List.{append_assoc, append-nil}
use fluxgate_operator.Prelude.{
  Bool, true, false, ◌&&◌, List, [], ◌∷◌, ◌++◌, Option, none, some, Result, ok, err, String,
  if◌then◌else◌, ◌≡◌, refl, sym, ap, ◌∙◌, subst, arith,
}
use fluxgate_operator.Api.{EnforcementAction, PipelineSecurityReport}
use fluxgate_operator.Connector.Types.{PipelineConnector}
use fluxgate_operator.Platform.{Platform}
use fluxgate_operator.Platform.World.{World, MetricUpdate, enforcement_actions}
use fluxgate_operator.Controller.Policy.Thresholds.{trigger_matches}
use fluxgate_operator.Controller.Policy.Suspend.{
  execute_suspend_sync, within_grace, start_grace, suspend_now, suspend_by,
}
use fluxgate_operator.Controller.Policy.Enforce.{
  execute_annotate, execute_alert, alert_target, execute_action, record_action, run_actions,
}

-- The same report but for its annotations.
abbrev pub IsSameButAnnotations : PipelineSecurityReport → PipelineSecurityReport → Type 0
IsSameButAnnotations a b =
    (a.status ≡ b.status)
    × (a.meta.name ≡ b.meta.name)
    × (a.meta.namespace ≡ b.meta.namespace)
    × (a.meta.labels ≡ b.meta.labels)

module _ (P : Platform) (cs : List (PipelineConnector P.State)) (rec : Bool) where
  suspend_now-metrics :
      (r : PipelineSecurityReport) (w : World P)
      → ((suspend_now P cs rec r w).1.metrics ≡ w.metrics)
        × ((suspend_now P cs rec r w).1.registry ≡ w.registry)
  unfolding suspend_now suspend_by
  suspend_now-metrics r w = ground arith

  execute_suspend_sync-keeps :
      (a : EnforcementAction) (r : PipelineSecurityReport) (w : World P)
      → IsSameButAnnotations (execute_suspend_sync P cs rec a r w).1 r
        × ((execute_suspend_sync P cs rec a r w).2.metrics ≡ w.metrics)
        × ((execute_suspend_sync P cs rec a r w).2.registry ≡ w.registry)
  unfolding execute_suspend_sync within_grace start_grace
  execute_suspend_sync-keeps a r w = ground (arith, suspend_now-metrics r w)

  execute_annotate-keeps :
      (r : PipelineSecurityReport) (w : World P)
      → IsSameButAnnotations (execute_annotate P r w).1 r
        × ((execute_annotate P r w).2.metrics ≡ w.metrics)
        × ((execute_annotate P r w).2.registry ≡ w.registry)
  unfolding execute_annotate
  execute_annotate-keeps r w = ground arith

  execute_alert-keeps :
      (a : EnforcementAction) (r : PipelineSecurityReport) (level : String) (w : World P)
      → ((execute_alert P a r level w).1.metrics ≡ w.metrics)
        × ((execute_alert P a r level w).1.registry ≡ w.registry)
  unfolding execute_alert alert_target
  execute_alert-keeps a r level w = ground arith

  execute_action-keeps :
      (a : EnforcementAction) (level : String) (r : PipelineSecurityReport) (w : World P)
      → IsSameButAnnotations (execute_action P cs rec a level r w).1 r
        × ((execute_action P cs rec a level r w).2.metrics ≡ w.metrics)
        × ((execute_action P cs rec a level r w).2.registry ≡ w.registry)
  unfolding execute_action
  execute_action-keeps a level r w = ground (
    arith,
    execute_annotate-keeps r w,
    execute_alert-keeps a r level w,
    execute_suspend_sync-keeps a r w,
  )

IsSameButAnnotations-trans :
    (a b c : PipelineSecurityReport)
    → IsSameButAnnotations a b
    → IsSameButAnnotations b c
    → IsSameButAnnotations a c
IsSameButAnnotations-trans a b c (s, n, ns, l) (s', n', ns', l') =
    (s ∙ s', n ∙ n', ns ∙ ns', l ∙ l')

-- An action that was carried out with no error.
abbrev pub is_done : Option (Result (Unit {0})) → Bool
is_done (some (ok done)) = true
is_done (some (err e)) = false
is_done none = false

module _ (P : Platform) (cs : List (PipelineConnector P.State)) (rec : Bool) (level : String) where
  -- One count for each action that the level triggers and that is done when its turn comes, in order.
  abbrev pub counts :
      String
      → String
      → List EnforcementAction
      → PipelineSecurityReport
      → World P
      → List MetricUpdate
  counts namespace name [] r w = []
  counts namespace name (a ∷ actions) r w =
      let (r₁, w₁) = run_actions P cs rec (a ∷ []) level r w in
      let rest = counts namespace name actions r₁ w₁ in
      if trigger_matches a.trigger level && is_done (execute_action P cs rec a level r w).0
      then enforcement_actions a.action namespace name ∷ rest
      else rest

  -- What a run of the actions leaves: the report but for annotations, the registry, and the metrics with
  -- those counts and no other update.
  abbrev pub IsRun :
      List EnforcementAction
      → PipelineSecurityReport
      → World P
      → PipelineSecurityReport
      → World P
      → Type 0
  IsRun actions r w r' w' =
      IsSameButAnnotations r' r
      × (w'.registry ≡ w.registry)
      × (w'.metrics ≡ w.metrics ++ counts r.meta.namespace r.meta.name actions r w)

  -- The count of one action, if there is one.
  abbrev counted : EnforcementAction → String → String → Bool → List MetricUpdate
  counted a namespace name true = enforcement_actions a.action namespace name ∷ []
  counted a namespace name false = []

  record_action-keeps :
      (a : EnforcementAction) (o : Option (Result (Unit {0}))) (r : PipelineSecurityReport)
      (w : World P)
      → let s = record_action P cs rec a (o, r, w) in
        (s.0 ≡ r)
        × (s.1.registry ≡ w.registry)
        × (s.1.metrics ≡ w.metrics ++ counted a r.meta.namespace r.meta.name (is_done o))
  unfolding record_action
  record_action-keeps a (some (ok done)) r w = (refl, refl, refl)
  record_action-keeps a (some (err e)) r w = (refl, refl, sym (append-nil w.metrics))
  record_action-keeps a none r w = (refl, refl, sym (append-nil w.metrics))

  triggered-keeps :
      (a : EnforcementAction) (r : PipelineSecurityReport) (w : World P)
      → let x = execute_action P cs rec a level r w in
        let s = record_action P cs rec a x in
        IsSameButAnnotations s.0 r
        × (s.1.registry ≡ w.registry)
        × (s.1.metrics ≡ w.metrics ++ counted a r.meta.namespace r.meta.name (is_done x.0))
  triggered-keeps a r w =
      let x = execute_action P cs rec a level r w in
      let (same, metrics, registry) = execute_action-keeps P cs rec a level r w in
      let (report, registry', metrics') = record_action-keeps a x.0 x.1 x.2 in
      (
        subst (λ q. IsSameButAnnotations q r) (sym report) same,
        registry' ∙ registry,
        metrics'
            ∙ ap (λ ms. ms ++ counted a x.1.meta.namespace x.1.meta.name (is_done x.0)) metrics
            ∙ ap (λ ns. w.metrics ++ counted a ns x.1.meta.name (is_done x.0)) same.2
            ∙ ap (λ n. w.metrics ++ counted a r.meta.namespace n (is_done x.0)) same.1,
      )

  -- One action, by whether it is triggered.
  abbrev step :
      Bool → EnforcementAction → PipelineSecurityReport → World P → PipelineSecurityReport × World P
  step on a r w =
      if on then record_action P cs rec a (execute_action P cs rec a level r w) else (r, w)

  step-keeps :
      (on : Bool) (a : EnforcementAction) (r : PipelineSecurityReport) (w : World P)
      → let s = step on a r w in
        let b = on && is_done (execute_action P cs rec a level r w).0 in
        IsSameButAnnotations s.0 r
        × (s.1.registry ≡ w.registry)
        × (s.1.metrics ≡ w.metrics ++ counted a r.meta.namespace r.meta.name b)
  step-keeps true a r w = triggered-keeps a r w
  step-keeps false a r w = ((refl, refl, refl, refl), refl, sym (append-nil w.metrics))

  counts-cons :
      (a : EnforcementAction) (namespace name : String) (b : Bool) (rest ms : List MetricUpdate)
      → (ms ++ counted a namespace name b) ++ rest
        ≡ ms ++ (if b then enforcement_actions a.action namespace name ∷ rest else rest)
  counts-cons a namespace name true rest ms =
      append_assoc ms (enforcement_actions a.action namespace name ∷ []) rest
  counts-cons a namespace name false rest ms = ap (λ l. l ++ rest) (append-nil ms)

  -- Whatever the actions are and do, and whichever of them fail: a run of them changes nothing of the
  -- report but its annotations, leaves the registry alone, and adds to the metrics exactly one count for
  -- each action that the level triggers and that is carried out with no error when its turn comes, under
  -- the name of that action and of the report, in the order of the actions, and nothing else.
  pub run_actions-IsRun :
      (actions : List EnforcementAction) (r : PipelineSecurityReport) (w : World P)
      → IsRun actions r w
          (run_actions P cs rec actions level r w).0
          (run_actions P cs rec actions level r w).1
  unfolding run_actions
  run_actions-IsRun [] r w = ((refl, refl, refl, refl), refl, sym (append-nil w.metrics))
  run_actions-IsRun (a ∷ actions) r w =
      let on = trigger_matches a.trigger level in
      let b = on && is_done (execute_action P cs rec a level r w).0 in
      let s = step on a r w in
      let (same, registry, metrics) = step-keeps on a r w in
      let (same', registry', metrics') = run_actions-IsRun actions s.0 s.1 in
      let ns = r.meta.namespace in
      let name = r.meta.name in
      (
        IsSameButAnnotations-trans (run_actions P cs rec actions level s.0 s.1).0 s.0 r same' same,
        registry' ∙ registry,
        metrics'
            ∙ ap (λ ms. ms ++ counts s.0.meta.namespace s.0.meta.name actions s.0 s.1) metrics
            ∙ ap (λ n. (w.metrics ++ counted a ns name b) ++ counts n s.0.meta.name actions s.0 s.1)
                same.2
            ∙ ap (λ n. (w.metrics ++ counted a ns name b) ++ counts ns n actions s.0 s.1) same.1
            ∙ counts-cons a ns name b (counts ns name actions s.0 s.1) w.metrics,
      )

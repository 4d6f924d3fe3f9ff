-- ===== src/Controller/Policy/Enforce/Reconcile.antt =====
-- How a reconciliation of a policy ends.
use fluxgate_operator.Prelude.{
  ◌*◌, Bool, false, not, List, [], ◌∷◌, All, Result-cases, Error, ok, err, failure, not_found,
  String, eqb_of_ne, ignore_not_found, eqb_ℤ, eqb_ℤ-eq, eqb_ℤ_refl, if◌then◌else◌, ◌≡◌, ◌≢◌, ◌⊎◌,
  refl, ap, ◌∙◌, inl, inr, arith, ℤ, pos, ltb_ℤ,
}
use fluxgate_operator.Api.{EnforcementAction, PipelineSecurityPolicy, PipelineSecurityReport}
use fluxgate_operator.Connector.Types.{PipelineConnector}
use fluxgate_operator.Platform.{Platform, NamespacedName, no_requeue, requeue, minute}
use fluxgate_operator.Platform.World.{World}
use fluxgate_operator.Controller.Policy.Thresholds.{trigger_matches}
use fluxgate_operator.Controller.Policy.Enforce.{
  run_actions, execute_enforcement, enforce_all, requeue_delay, activated, reconcile_reports,
  reconcile,
}

-- The delay that an interval gives is positive unless the interval is negative.
positive-interval :
    (x : ℤ)
    → ltb_ℤ (pos 0) (if eqb_ℤ x (pos 0) then pos (5 * minute) else x) ≡ not (ltb_ℤ x (pos 0))
positive-interval x = ground (arith, eqb_ℤ-eq x (pos 0), eqb_ℤ_refl x)

module _ (P : Platform) (cs : List (PipelineConnector P.State)) (rec : Bool) where
  run_actions-untriggered :
      (actions : List EnforcementAction) (level : String) (r : PipelineSecurityReport) (w : World P)
      → All (λ a. trigger_matches a.trigger level ≡ false) actions
      → run_actions P cs rec actions level r w ≡ (r, w)
  unfolding run_actions
  run_actions-untriggered [] level r w h = refl
  run_actions-untriggered (a ∷ actions) level r w (off, h) =
      rw off (run_actions-untriggered actions level r w h)

  -- Below every trigger nothing is done: where no action of the policy is triggered by a level other than
  -- "Compliant", enforcement succeeds and changes neither the report nor anything else.
  pub execute_enforcement-untriggered :
      (p : PipelineSecurityPolicy) (r : PipelineSecurityReport) (level : String) (w : World P)
      → level ≢ "Compliant"
      → All (λ a. trigger_matches a.trigger level ≡ false) p.spec.enforcement
      → execute_enforcement P cs rec p r level w ≡ (ok tt, r, w)
  unfolding execute_enforcement
  execute_enforcement-untriggered p r level w bad none_on = rw (
    eqb_of_ne level "Compliant" bad,
    run_actions-untriggered p.spec.enforcement level r w none_on,
  )

  requeue_delay-ne_zero : (p : PipelineSecurityPolicy) → requeue_delay P cs rec p ≢ pos 0
  unfolding requeue_delay
  requeue_delay-ne_zero p =
      ground
        (arith, eqb_ℤ-eq p.spec.evaluation_interval (pos 0), eqb_ℤ_refl p.spec.evaluation_interval)

  requeue_delay-positive :
      (p : PipelineSecurityPolicy)
      → ltb_ℤ (pos 0) (requeue_delay P cs rec p) ≡ not (ltb_ℤ p.spec.evaluation_interval (pos 0))
  unfolding requeue_delay
  requeue_delay-positive p = positive-interval p.spec.evaluation_interval

  reconcile-read :
      (nn : NamespacedName) (w : World P) (p : PipelineSecurityPolicy)
      (reports : List PipelineSecurityReport)
      → P.get_policy w.api nn ≡ ok p
      → P.list_reports w.api p.meta.namespace ≡ ok reports
      → reconcile P cs rec nn w ≡ reconcile_reports P cs rec p reports w
  unfolding reconcile
  reconcile-read nn w p reports read listed = rw (read, reconcile, listed)

  reconcile_reports-stored :
      (p : PipelineSecurityPolicy) (reports : List PipelineSecurityReport) (w : World P)
      → (P.update_policy_status
          (enforce_all P cs rec p reports w).api
          (activated P cs rec p reports)).0
        ≡ ok tt
      → (reconcile_reports P cs rec p reports w).0 ≡ ok (requeue (requeue_delay P cs rec p))
  unfolding reconcile_reports
  reconcile_reports-stored p reports w stored = rw stored

  reconcile_reports-refused :
      (p : PipelineSecurityPolicy) (reports : List PipelineSecurityReport) (w : World P) (e : Error)
      → (P.update_policy_status
          (enforce_all P cs rec p reports w).api
          (activated P cs rec p reports)).0
        ≡ err e
      → (reconcile_reports P cs rec p reports w).0 ≡ err e
  unfolding reconcile_reports
  reconcile_reports-refused p reports w e refused = rw refused

  -- What the reads and the last write give decides. A policy that is gone ends the reconciliation with no
  -- error and no requeue; any other error of the two reads is returned; in each of these cases nothing is
  -- changed. An error of the status write is returned. Else the result asks for the next reconciliation after
  -- the evaluation interval of the policy or, where that is 0, five minutes. This delay is never 0, and it is
  -- positive, so that there is a next reconciliation, exactly where the interval is not negative.
  pub reconcile-outcome :
      (nn : NamespacedName) (w : World P)
      → ((m : String) × (P.get_policy w.api nn ≡ err (not_found m))
          × (reconcile P cs rec nn w ≡ (ok no_requeue, w)))
        ⊎ ((m : String) × (P.get_policy w.api nn ≡ err (failure m))
            × (reconcile P cs rec nn w ≡ (err (failure m), w)))
        ⊎ ((p : PipelineSecurityPolicy) × (e : Error) × (P.get_policy w.api nn ≡ ok p)
            × (P.list_reports w.api p.meta.namespace ≡ err e)
            × (reconcile P cs rec nn w ≡ (err e, w)))
        ⊎ ((p : PipelineSecurityPolicy) × (reports : List PipelineSecurityReport) × (P.get_policy
                w.api nn
              ≡ ok p)
            × (P.list_reports w.api p.meta.namespace ≡ ok reports)
            × (((e : Error) × ((P.update_policy_status
                      (enforce_all P cs rec p reports w).api
                      (activated P cs rec p reports)).0
                    ≡ err e)
                  × ((reconcile P cs rec nn w).0 ≡ err e))
                ⊎ ((delay : ℤ) × ((reconcile P cs rec nn w).0 ≡ ok (requeue delay))
                    × (delay ≢ pos 0)
                    × (ltb_ℤ (pos 0) delay ≡ not (ltb_ℤ p.spec.evaluation_interval (pos 0)))
                    × (delay ≡ (
                        if eqb_ℤ p.spec.evaluation_interval (pos 0)
                        then pos (5 * minute)
                        else p.spec.evaluation_interval)))))
  unfolding reconcile ignore_not_found
  reconcile-outcome nn w = elim (Result-cases (P.get_policy w.api nn)) [
    | inl (not_found m, gone) ↦ inl (m, gone, rw (gone, reconcile))
    | inl (failure m, failed) ↦ inr (inl (m, failed, rw (failed, reconcile)))
    | inr (p, read) ↦ elim (Result-cases (P.list_reports w.api p.meta.namespace)) [
      | inl (e, listed) ↦ inr (inr (inl (p, e, read, listed, rw (read, reconcile, listed))))
      | inr (reports, listed) ↦
          let same = ap (λ x. x.0) (reconcile-read nn w p reports read listed) in
          inr (
            inr (
              inr (
                p,
                reports,
                read,
                listed,
                elim (Result-cases
                    (P.update_policy_status (enforce_all P cs rec p reports w).api
                      (activated P cs rec p reports)).0) [
                        | inl (e, refused) ↦
                            inl (e, refused, same ∙ reconcile_reports-refused p reports w e refused)
                        | inr (tt, stored) ↦ inr (
                          requeue_delay P cs rec p,
                          same ∙ reconcile_reports-stored p reports w stored,
                          requeue_delay-ne_zero p,
                          requeue_delay-positive p,
                          unfold requeue_delay in refl,
                        )
                      ],
              )))
    ]
  ]

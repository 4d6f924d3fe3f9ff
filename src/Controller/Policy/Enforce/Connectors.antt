-- ===== src/Controller/Policy/Enforce/Connectors.antt =====
-- When enforcement may call a connector.
use fluxgate_operator.Prelude.{
  Bool, true, false, ◌&&◌, List, [], ◌∷◌, All, Option, none, some, Result, ok, err, String, ◌==◌,
  eqb_of_ne, ◌≡◌, ◌≢◌, ◌∙◌, refl, ap, arith, Bool-cases, inl, inr,
}
use fluxgate_operator.Api.{EnforcementAction, PipelineSecurityPolicy, PipelineSecurityReport}
use fluxgate_operator.Connector.Types.{PipelineConnector}
use fluxgate_operator.Platform.{Platform}
use fluxgate_operator.Platform.World.{World}
use fluxgate_operator.Controller.Policy.Thresholds.{trigger_matches}
use fluxgate_operator.Controller.Policy.Enforce.{
  execute_action, record_action, run_actions, execute_enforcement,
}

-- The level triggers the action, and the action suspends.
abbrev pub suspends : String → EnforcementAction → Bool
suspends level a = trigger_matches a.trigger level && a.action == "suspendSync"

and-split : (a b : Bool) → a ≡ true → (a && b) ≡ false → b ≡ false
and-split a b h k = ground arith

module _ (P : Platform) (cs cs' : List (PipelineConnector P.State)) (rec : Bool)
    (level : String) where
  execute_action-same :
      (a : EnforcementAction) (r : PipelineSecurityReport) (w : World P)
      → (a.action == "suspendSync") ≡ false
      → execute_action P cs rec a level r w ≡ execute_action P cs' rec a level r w
  unfolding execute_action
  execute_action-same a r w other = rw other

  record_action-same :
      (a : EnforcementAction) (x : Option (Result (Unit {0})) × PipelineSecurityReport × World P)
      → record_action P cs rec a x ≡ record_action P cs' rec a x
  unfolding record_action
  record_action-same a (none, r, w) = refl
  record_action-same a (some (ok done), r, w) = refl
  record_action-same a (some (err e), r, w) = refl

  run_actions-same :
      (actions : List EnforcementAction) (r : PipelineSecurityReport) (w : World P)
      → All (λ a. suspends level a ≡ false) actions
      → run_actions P cs rec actions level r w ≡ run_actions P cs' rec actions level r w
  unfolding run_actions
  run_actions-same [] r w h = refl
  run_actions-same (a ∷ actions) r w (quiet, h) =
      elim (Bool-cases (trigger_matches a.trigger level)) [
        | inl on ↦
            let other = and-split _ _ on quiet in
            let same =
              ap (record_action P cs rec a) (execute_action-same a r w other)
              ∙ record_action-same a (execute_action P cs' rec a level r w) in
            let x = record_action P cs' rec a (execute_action P cs' rec a level r w) in
            rw (on, same) (run_actions-same actions x.0 x.1 h)
        | inr off ↦ rw off (run_actions-same actions r w h)
      ]

  -- Enforcement of a violation, any level but "Compliant", reaches the connectors by suspension alone:
  -- where no action that the level triggers is a suspension, the outcome is the same whatever the
  -- connectors are and do.
  pub execute_enforcement-connectors :
      (p : PipelineSecurityPolicy) (r : PipelineSecurityReport) (w : World P)
      → level ≢ "Compliant"
      → All (λ a. suspends level a ≡ false) p.spec.enforcement
      → execute_enforcement P cs rec p r level w ≡ execute_enforcement P cs' rec p r level w
  unfolding execute_enforcement
  execute_enforcement-connectors p r w bad quiet =
      rw (eqb_of_ne level "Compliant" bad, run_actions-same p.spec.enforcement r w quiet)

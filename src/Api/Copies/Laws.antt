-- ===== src/Api/Copies/Laws.antt =====
-- The copies of the structs, as layouts: each stands for the resource of Api that its original stands for, in
-- new cells only.
use fluxgate_operator.Prelude.{ℕ, Dict, List, [], Option, none, some, String, ℤ, ◌≡◌, refl}
use fluxgate_operator.Api.{
  AlertTarget, Finding, FindingSummary, PipelineSourceRef, PolicyThresholds, WorkloadRef,
  ObjectMeta, EnforcementAction, PipelineSecurityPolicy, PipelineSecurityPolicySpec,
  PipelineSecurityPolicyStatus, PipelineSecurityReport, PipelineSecurityReportStatus,
  PolicySelector, RuleOverride, RuleOverrideScope,
}
use fluxgate_operator.Api.Layouts.{Layout, plain, pointer, slice}
use fluxgate_operator.Api.Layouts.Pairs.{both, struct}
use fluxgate_operator.Api.Stored.{
  StoredSelector, StoredAction, StoredScope, StoredOverride, StoredSpec, StoredPolicy,
  StoredReportStatus, StoredReport, Cell, texts_kind, entries_kind, target_kind, scope_kind,
  actions_kind, overrides_kind, workloads_kind, findings_kind, policies_kind, reports_kind,
}
use fluxgate_operator.Api.Copies.{
  selector_into, action_into, scope_into, override_into, spec_into, report_status_into, policy_into,
  report_into,
}

module _ (Meta Extra : Type 0) where
  abbrev pub selector_parts :
      Layout (Cell Meta Extra) (Option ℕ × Option ℕ) (List String × Dict String)
  selector_parts =
      both (pointer (texts_kind Meta Extra) plain [] (λ vs. vs))
        (pointer (entries_kind Meta Extra) plain [] (λ vs. vs))

  pub selector_same :
      (x : StoredSelector) (m : List (Cell Meta Extra))
      → selector_parts.into (x.cicd_kinds, x.match_labels) m
        ≡ (let (x', m') = selector_into Meta Extra x m in ((x'.cicd_kinds, x'.match_labels), m'))
  unfolding selector_into
  selector_same x m = refl

  abbrev pub selector_layout : Layout (Cell Meta Extra) StoredSelector PolicySelector
  selector_layout =
      struct selector_parts (λ x. (x.cicd_kinds, x.match_labels))
        (λ v. (v.cicd_kinds, v.match_labels)) (selector_into Meta Extra) selector_same

  abbrev pub action_parts :
      Layout
        (Cell Meta Extra)
        ((String × String × String) × Option ℕ)
        ((String × String × String) × Option AlertTarget)
  action_parts = both plain (pointer (target_kind Meta Extra) plain none some)

  pub action_same :
      (x : StoredAction) (m : List (Cell Meta Extra))
      → action_parts.into ((x.action, x.trigger, x.grace_period), x.alert_target) m ≡ (
          let (x', m') = action_into Meta Extra x m in
          (((x'.action, x'.trigger, x'.grace_period), x'.alert_target), m'))
  unfolding action_into
  action_same x m = refl

  abbrev pub action_layout : Layout (Cell Meta Extra) StoredAction EnforcementAction
  action_layout =
      struct action_parts (λ x. ((x.action, x.trigger, x.grace_period), x.alert_target))
        (λ v. ((v.action, v.trigger, v.grace_period), v.alert_target)) (action_into Meta Extra)
        action_same

  abbrev pub scope_parts : Layout (Cell Meta Extra) (Option ℕ) (List String)
  scope_parts = pointer (texts_kind Meta Extra) plain [] (λ vs. vs)

  pub scope_same :
      (x : StoredScope) (m : List (Cell Meta Extra))
      → scope_parts.into x.repositories m
        ≡ (let (x', m') = scope_into Meta Extra x m in (x'.repositories, m'))
  unfolding scope_into
  scope_same x m = refl

  abbrev pub scope_layout : Layout (Cell Meta Extra) StoredScope RuleOverrideScope
  scope_layout =
      struct scope_parts (λ x. x.repositories) (λ v. v.repositories) (scope_into Meta Extra)
        scope_same

  abbrev pub override_parts :
      Layout
        (Cell Meta Extra)
        ((String × String × String) × Option ℕ)
        ((String × String × String) × Option RuleOverrideScope)
  override_parts = both plain (pointer (scope_kind Meta Extra) scope_layout none some)

  pub override_same :
      (x : StoredOverride) (m : List (Cell Meta Extra))
      → override_parts.into ((x.rule, x.severity, x.reason), x.scope) m ≡ (
          let (x', m') = override_into Meta Extra x m in
          (((x'.rule, x'.severity, x'.reason), x'.scope), m'))
  unfolding override_into
  override_same x m = refl

  abbrev pub override_layout : Layout (Cell Meta Extra) StoredOverride RuleOverride
  override_layout =
      struct override_parts (λ x. ((x.rule, x.severity, x.reason), x.scope))
        (λ v. ((v.rule, v.severity, v.reason), v.scope)) (override_into Meta Extra) override_same

  abbrev pub spec_parts :
      Layout
        (Cell Meta Extra)
        (((PolicyThresholds × ℤ) × StoredSelector) × (Option ℕ × Option ℕ))
        (((PolicyThresholds × ℤ) × PolicySelector) × (List EnforcementAction × List RuleOverride))
  spec_parts = both (both plain selector_layout) (
      both (slice action_layout (actions_kind Meta Extra))
        (slice override_layout (overrides_kind Meta Extra)))

  pub spec_same :
      (x : StoredSpec) (m : List (Cell Meta Extra))
      → spec_parts.into
          (((x.thresholds, x.evaluation_interval), x.selector), (x.enforcement, x.rule_overrides))
          m
        ≡ (let (x', m') = spec_into Meta Extra x m in
            (
              (
                ((x'.thresholds, x'.evaluation_interval), x'.selector),
                (x'.enforcement, x'.rule_overrides),
              ),
              m',
            ))
  unfolding spec_into
  spec_same x m = refl

  abbrev pub spec_layout : Layout (Cell Meta Extra) StoredSpec PipelineSecurityPolicySpec
  spec_layout =
      struct spec_parts
        (λ x.
          (((x.thresholds, x.evaluation_interval), x.selector), (x.enforcement, x.rule_overrides)))
        (λ v.
          (((v.thresholds, v.evaluation_interval), v.selector), (v.enforcement, v.rule_overrides)))
        (spec_into Meta Extra) spec_same

  abbrev pub report_status_parts :
      Layout
        (Cell Meta Extra)
        ((String × ℤ × PipelineSourceRef × FindingSummary) × (Option ℕ × Option ℕ))
        ((String × ℤ × PipelineSourceRef × FindingSummary) × (List WorkloadRef × List Finding))
  report_status_parts = both plain (
      both (pointer (workloads_kind Meta Extra) plain [] (λ vs. vs))
        (pointer (findings_kind Meta Extra) plain [] (λ vs. vs)))

  pub report_status_same :
      (x : StoredReportStatus) (m : List (Cell Meta Extra))
      → report_status_parts.into
          (
            (x.compliance_state, x.last_evaluated, x.source, x.summary),
            (x.correlated_workloads, x.findings),
          )
          m
        ≡ (let (x', m') = report_status_into Meta Extra x m in
            (
              (
                (x'.compliance_state, x'.last_evaluated, x'.source, x'.summary),
                (x'.correlated_workloads, x'.findings),
              ),
              m',
            ))
  unfolding report_status_into
  report_status_same x m = refl

  abbrev pub report_status_layout :
      Layout (Cell Meta Extra) StoredReportStatus PipelineSecurityReportStatus
  report_status_layout =
      struct report_status_parts
        (λ x. (
          (x.compliance_state, x.last_evaluated, x.source, x.summary),
          (x.correlated_workloads, x.findings),
        ))
        (λ v. (
          (v.compliance_state, v.last_evaluated, v.source, v.summary),
          (v.correlated_workloads, v.findings),
        ))
        (report_status_into Meta Extra) report_status_same

  -- The metadata, as the API machinery copies it.
  module _ (M : Layout (Cell Meta Extra) Meta ObjectMeta) where
    abbrev pub policy_parts :
        Layout
          (Cell Meta Extra)
          (PipelineSecurityPolicyStatus × (Meta × StoredSpec))
          (PipelineSecurityPolicyStatus × (ObjectMeta × PipelineSecurityPolicySpec))
    policy_parts = both plain (both M spec_layout)

    pub policy_same :
        (x : StoredPolicy Meta) (m : List (Cell Meta Extra))
        → policy_parts.into (x.status, (x.meta, x.spec)) m ≡ (
            let (x', m') = policy_into Meta Extra M.into x m in
            ((x'.status, (x'.meta, x'.spec)), m'))
    unfolding policy_into
    policy_same x m = refl

    abbrev pub policy_layout : Layout (Cell Meta Extra) (StoredPolicy Meta) PipelineSecurityPolicy
    policy_layout =
        struct policy_parts (λ x. (x.status, (x.meta, x.spec))) (λ v. (v.status, (v.meta, v.spec)))
          (policy_into Meta Extra M.into) policy_same

    abbrev pub report_parts :
        Layout
          (Cell Meta Extra)
          (Meta × StoredReportStatus)
          (ObjectMeta × PipelineSecurityReportStatus)
    report_parts = both M report_status_layout

    pub report_same :
        (x : StoredReport Meta) (m : List (Cell Meta Extra))
        → report_parts.into (x.meta, x.status) m
          ≡ (let (x', m') = report_into Meta Extra M.into x m in ((x'.meta, x'.status), m'))
    unfolding report_into
    report_same x m = refl

    abbrev pub report_layout : Layout (Cell Meta Extra) (StoredReport Meta) PipelineSecurityReport
    report_layout =
        struct report_parts (λ x. (x.meta, x.status)) (λ v. (v.meta, v.status))
          (report_into Meta Extra M.into) report_same

    -- The lists, by their `Items`.
    abbrev pub policies_layout : Layout (Cell Meta Extra) (Option ℕ) (List PipelineSecurityPolicy)
    policies_layout = slice policy_layout (policies_kind Meta Extra)

    abbrev pub reports_layout : Layout (Cell Meta Extra) (Option ℕ) (List PipelineSecurityReport)
    reports_layout = slice report_layout (reports_kind Meta Extra)

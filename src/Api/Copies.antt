-- ===== src/Api/Copies.antt =====
-- api/v1alpha1/zz_generated.deepcopy.go. The copies of the metadata are the API machinery's, and are a
-- parameter; TypeMeta and ListMeta are left out, as in Api, and a time or a duration has no address. A
-- cell of an array is added once its items are copied, since nothing tells where a new cell lies.
pub mod Laws
pub mod Aliasing
use fluxgate_operator.Prelude.{ℕ, List, Option, none, some}
use fluxgate_operator.Api.{
  AlertTarget, Finding, FindingSummary, PipelineSecurityPolicyStatus, PipelineSourceRef,
  PolicyThresholds, WorkloadRef,
}
use fluxgate_operator.Api.Memory.{copy_pointer, copy_items, flat}
use fluxgate_operator.Api.Stored.{
  StoredSelector, StoredAction, StoredScope, StoredOverride, StoredSpec, StoredPolicy,
  StoredReportStatus, StoredReport, Cell, texts_kind, entries_kind, target_kind, scope_kind,
  actions_kind, overrides_kind, workloads_kind, findings_kind, policies_kind, reports_kind,
}

module _ (Meta Extra : Type 0) where
  abbrev pub Memory : Type 0
  Memory = List (Cell Meta Extra)

  -- `DeepCopyInto` of a struct: the struct that it fills, and the memory after it.
  abbrev pub Into : Type 0 → Type 0
  Into A = A → Memory → A × Memory

  abbrev pub Copy : Type 0 → Type 0
  Copy A = Option A → Memory → Option A × Memory

  -- `DeepCopy` of a struct, which `DeepCopyObject` calls: nil for nil, or a new struct that is filled.
  unfoldable pub deep_copy : {A : Type 0} → Into A → Copy A
  deep_copy into none m = (none, m)
  deep_copy into (some x) m = let (y, m') = into x m in (some y, m')

  abbrev pub alert_target_into : Into AlertTarget
  alert_target_into = flat

  abbrev pub thresholds_into : Into PolicyThresholds
  thresholds_into = flat

  abbrev pub policy_status_into : Into PipelineSecurityPolicyStatus
  policy_status_into = flat

  abbrev pub source_ref_into : Into PipelineSourceRef
  source_ref_into = flat

  abbrev pub summary_into : Into FindingSummary
  summary_into = flat

  abbrev pub workload_into : Into WorkloadRef
  workload_into = flat

  abbrev pub finding_into : Into Finding
  finding_into = flat

  unfoldable pub selector_into : Into StoredSelector
  selector_into x m =
      let (kinds, m₁) = copy_pointer (texts_kind Meta Extra) flat x.cicd_kinds m in
      let (labels, m₂) = copy_pointer (entries_kind Meta Extra) flat x.match_labels m₁ in
      (record x { cicd_kinds = kinds; match_labels = labels }, m₂)

  unfoldable pub action_into : Into StoredAction
  action_into x m =
      let (to, m₁) = copy_pointer (target_kind Meta Extra) flat x.alert_target m in
      (record x { alert_target = to }, m₁)

  unfoldable pub scope_into : Into StoredScope
  scope_into x m =
      let (repos, m₁) = copy_pointer (texts_kind Meta Extra) flat x.repositories m in
      (record x { repositories = repos }, m₁)

  unfoldable pub override_into : Into StoredOverride
  override_into x m =
      let (limit, m₁) = copy_pointer (scope_kind Meta Extra) scope_into x.scope m in
      (record x { scope = limit }, m₁)

  unfoldable pub spec_into : Into StoredSpec
  spec_into x m =
      let (selector, m₁) = selector_into x.selector m in
      let (enforcement, m₂) =
        copy_pointer (actions_kind Meta Extra) (copy_items action_into) x.enforcement m₁ in
      let (rules, m₃) =
        copy_pointer (overrides_kind Meta Extra) (copy_items override_into) x.rule_overrides m₂ in
      (record x { selector = selector; enforcement = enforcement; rule_overrides = rules }, m₃)

  unfoldable pub report_status_into : Into StoredReportStatus
  report_status_into x m =
      let (wls, m₁) = copy_pointer (workloads_kind Meta Extra) flat x.correlated_workloads m in
      let (fs, m₂) = copy_pointer (findings_kind Meta Extra) flat x.findings m₁ in
      (record x { correlated_workloads = wls; findings = fs }, m₂)

  abbrev pub deep_copy_alert_target : Copy AlertTarget
  deep_copy_alert_target = deep_copy alert_target_into

  abbrev pub deep_copy_thresholds : Copy PolicyThresholds
  deep_copy_thresholds = deep_copy thresholds_into

  abbrev pub deep_copy_policy_status : Copy PipelineSecurityPolicyStatus
  deep_copy_policy_status = deep_copy policy_status_into

  abbrev pub deep_copy_source_ref : Copy PipelineSourceRef
  deep_copy_source_ref = deep_copy source_ref_into

  abbrev pub deep_copy_summary : Copy FindingSummary
  deep_copy_summary = deep_copy summary_into

  abbrev pub deep_copy_workload : Copy WorkloadRef
  deep_copy_workload = deep_copy workload_into

  abbrev pub deep_copy_finding : Copy Finding
  deep_copy_finding = deep_copy finding_into

  abbrev pub deep_copy_selector : Copy StoredSelector
  deep_copy_selector = deep_copy selector_into

  abbrev pub deep_copy_action : Copy StoredAction
  deep_copy_action = deep_copy action_into

  abbrev pub deep_copy_scope : Copy StoredScope
  deep_copy_scope = deep_copy scope_into

  abbrev pub deep_copy_override : Copy StoredOverride
  deep_copy_override = deep_copy override_into

  abbrev pub deep_copy_spec : Copy StoredSpec
  deep_copy_spec = deep_copy spec_into

  abbrev pub deep_copy_report_status : Copy StoredReportStatus
  deep_copy_report_status = deep_copy report_status_into

  module _ (meta_into : Into Meta) where
    unfoldable pub policy_into : Into (StoredPolicy Meta)
    policy_into x m =
        let (meta, m₁) = meta_into x.meta m in
        let (spec, m₂) = spec_into x.spec m₁ in (record x { meta = meta; spec = spec }, m₂)

    unfoldable pub report_into : Into (StoredReport Meta)
    report_into x m =
        let (meta, m₁) = meta_into x.meta m in
        let (status, m₂) = report_status_into x.status m₁ in
        (record { meta = meta; status = status }, m₂)

    -- `PipelineSecurityPolicyList`, by its `Items`
    unfoldable pub policy_list_into : Into (Option ℕ)
    policy_list_into = copy_pointer (policies_kind Meta Extra) (copy_items policy_into)

    -- `PipelineSecurityReportList`, by its `Items`
    unfoldable pub report_list_into : Into (Option ℕ)
    report_list_into = copy_pointer (reports_kind Meta Extra) (copy_items report_into)

    abbrev pub deep_copy_policy : Copy (StoredPolicy Meta)
    deep_copy_policy = deep_copy policy_into

    abbrev pub deep_copy_report : Copy (StoredReport Meta)
    deep_copy_report = deep_copy report_into

    abbrev pub deep_copy_policy_list : Copy (Option ℕ)
    deep_copy_policy_list = deep_copy policy_list_into

    abbrev pub deep_copy_report_list : Copy (Option ℕ)
    deep_copy_report_list = deep_copy report_list_into

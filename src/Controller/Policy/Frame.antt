-- ===== src/Controller/Policy/Frame.antt =====
-- What a reconciliation of a policy leaves alone: the registry and the cache, and each fact on the
-- API server's state that the writes of the policy controller keep.
pub mod Sync
pub mod Rounds
use fluxgate_operator.Prelude.{
  Bool, true, false, ◌||◌, List, [], ◌∷◌, All, Dict, Option, none, some, Result, ok, err,
  Result-cases, Option-cases, Bool-cases, lookup, String, ◌==◌, text_at, ℤ, ltb_ℤ, time_sub,
  if◌then◌else◌, ◌≡◌, refl, ◌∙◌, inl, inr, subst,
}
use fluxgate_operator.Api.{
  AlertTarget, EnforcementAction, PipelineSecurityPolicy, PipelineSecurityReport, WorkloadRef,
}
use fluxgate_operator.Json.{Json, null, str}
use fluxgate_operator.Connector.Types.{PipelineConnector, PipelineSource}
use fluxgate_operator.Platform.{Platform, NamespacedName, Gvk}
use fluxgate_operator.Platform.World.{World, write}
use fluxgate_operator.Controller.Policy.Select.{
  label_source_kind, label_source_name, selector_matches,
}
use fluxgate_operator.Controller.Policy.Thresholds.{evaluate_thresholds, trigger_matches}
use fluxgate_operator.Controller.Policy.Workloads.{
  get_and_patch, ignoring, workload_key, label_pipeline_risk, patch_workload_label,
  remove_workload_label, label_all, execute_label_workloads, unlabel_all,
}
use fluxgate_operator.Controller.Policy.Suspend.{
  annotation_first_detected, serves, find_connector, suspend_by, suspend_now, start_grace,
  within_grace, execute_suspend_sync,
}
use fluxgate_operator.Controller.Policy.Restore.{
  resume_by, resume_sync, resume_and_unlabel, update_and_restore, restore_compliance,
}

-- The writes of the policy controller and of a connector keep `I`.
pub record Keeps (P : Platform) (I : P.State → Type 0) : Type 0 where
  pub report : (s : P.State) (r : PipelineSecurityReport) → I s → I (P.update_report s r).1
  pub policy : (s : P.State) (p : PipelineSecurityPolicy) → I s → I (P.update_policy_status s p).1
  pub workload :
      (s : P.State) (kind : String) (nn : NamespacedName) (patch : Json)
      → I s
      → I (P.patch_workload s kind nn patch).1
  pub object :
      (s : P.State) (gvk : Gvk) (nn : NamespacedName) (patch : Json)
      → I s
      → I (P.patch_object s gvk nn patch).1
  pub post : (s : P.State) (url : String) (body : Json) → I s → I (P.http_post s url body).1

abbrev pub ConnectorKeeps : (P : Platform) → (P.State → Type 0) → PipelineConnector P.State → Type 0
ConnectorKeeps P I c =
    (s : P.State) (src : PipelineSource) → I s → I (c.suspend s src).1 × I (c.resume s src).1

module _ (P : Platform) (I : P.State → Type 0) where
  abbrev pub Frame : World P → World P → Type 0
  Frame w w' = (w'.registry ≡ w.registry) × (w'.cache ≡ w.cache) × ((I w.api) → I w'.api)

  pub Frame-refl : (w : World P) → Frame w w
  Frame-refl w = (refl, refl, λ h. h)

  pub Frame-trans : (u v w : World P) → Frame u v → Frame v w → Frame u w
  Frame-trans u v w (r, c, k) (r', c', k') = (r' ∙ r, c' ∙ c, λ h. k' (k h))

  module _ (k : Keeps P I) where
    get_and_patch-keeps :
        (missing : Result (Unit {0}) → Result (Unit {0})) (wl : WorkloadRef) (patch : Json)
        (s : P.State)
        → I s
        → I (get_and_patch P missing wl patch s).1
    get_and_patch-keeps missing wl patch s h =
        elim (Result-cases (P.get_workload s wl.kind (workload_key wl))) [
          | inl (x, g) ↦ rw (g, get_and_patch) h
          | inr (x, g) ↦ rw (g, get_and_patch) (k.workload s wl.kind _ patch h)
        ]

    patch_workload_label-keeps :
        (key value : String) (wl : WorkloadRef) (s : P.State)
        → I s
        → I (patch_workload_label P key value wl s).1
    unfolding patch_workload_label
    patch_workload_label-keeps key value wl s h =
        elim (Bool-cases (wl.kind == "Deployment" || wl.kind == "StatefulSet")) [
          | inl e ↦ rw e (get_and_patch-keeps (λ r. r) wl _ s h)
          | inr e ↦ rw e h
        ]

    remove_workload_label-keeps :
        (key : String) (wl : WorkloadRef) (s : P.State)
        → I s
        → I (remove_workload_label P key wl s).1
    unfolding remove_workload_label
    remove_workload_label-keeps key wl s h =
        elim (Bool-cases (wl.kind == "Deployment" || wl.kind == "StatefulSet")) [
          | inl e ↦ rw e (get_and_patch-keeps (ignoring P) wl _ s h)
          | inr e ↦ rw e h
        ]

    pub label_all-keeps :
        (risk : String) (wls : List WorkloadRef) (s : P.State) → I s → I (label_all P risk wls s)
    unfolding label_all
    label_all-keeps risk [] s h = h
    label_all-keeps risk (wl ∷ wls) s h =
        label_all-keeps risk wls _ (patch_workload_label-keeps label_pipeline_risk risk wl s h)

    pub unlabel_all-keeps : (wls : List WorkloadRef) (s : P.State) → I s → I (unlabel_all P wls s)
    unfolding unlabel_all
    unlabel_all-keeps [] s h = h
    unlabel_all-keeps (wl ∷ wls) s h =
        unlabel_all-keeps wls _ (remove_workload_label-keeps label_pipeline_risk wl s h)

-- ===== src/Controller/Policy/Workloads.antt =====
-- internal/controller/policy_controller.go, the risk labels of workloads: `patchWorkloadLabel`,
-- `removeWorkloadLabel`, `executeLabelWorkloads` and the last loop of `restoreCompliance`.
use fluxgate_operator.Prelude.{
  List, [], ◌∷◌, Result, ok, err, failure, ignore_not_found, String, ◌==◌, ◌<>◌, to_lower,
  if◌then◌else◌, ◌||◌,
}
use fluxgate_operator.Api.{WorkloadRef}
use fluxgate_operator.Json.{Json, null, str, single}
use fluxgate_operator.Platform.{Platform, NamespacedName}

abbrev pub label_pipeline_risk : String
label_pipeline_risk = "fluxgate.north-echo.dev/pipeline-risk"

-- `{"metadata":{"labels":{key:value}}}`
abbrev pub label_patch : String → Json → Json
label_patch key value = single "metadata" (single "labels" (single key value))

abbrev pub workload_key : WorkloadRef → NamespacedName
workload_key wl = record { name = wl.name; namespace = wl.namespace }

module _ (P : Platform) where
  -- `Get` and then `Patch`; `missing` says what an error of the `Get` becomes.
  abbrev pub get_and_patch :
      (Result (Unit {0}) → Result (Unit {0}))
      → WorkloadRef
      → Json
      → P.State
      → Result (Unit {0}) × P.State
  get_and_patch missing wl patch s = elim (P.get_workload s wl.kind (workload_key wl)) [
    | ok found ↦ P.patch_workload s wl.kind (workload_key wl) patch
    | err e ↦ (missing (err e), s)
  ]

  -- `patchWorkloadLabel`
  unfoldable pub patch_workload_label :
      String → String → WorkloadRef → P.State → Result (Unit {0}) × P.State
  patch_workload_label key value wl s =
      if wl.kind == "Deployment" || wl.kind == "StatefulSet"
      then get_and_patch (λ r. r) wl (label_patch key (str value)) s
      else (err (failure ("unsupported workload kind: " <> wl.kind)), s)

  abbrev pub ignoring : Result (Unit {0}) → Result (Unit {0})
  ignoring (ok found) = ok found
  ignoring (err e) = ignore_not_found e

  -- `removeWorkloadLabel`
  unfoldable pub remove_workload_label :
      String → WorkloadRef → P.State → Result (Unit {0}) × P.State
  remove_workload_label key wl s =
      if wl.kind == "Deployment" || wl.kind == "StatefulSet"
      then get_and_patch ignoring wl (label_patch key null) s
      else (ok tt, s)

  -- The loop of `executeLabelWorkloads`: an error is logged, and the loop goes on.
  unfoldable pub label_all : String → List WorkloadRef → P.State → P.State
  label_all risk [] s = s
  label_all risk (wl ∷ wls) s =
      label_all risk wls (patch_workload_label label_pipeline_risk risk wl s).1

  -- `executeLabelWorkloads`
  unfoldable pub execute_label_workloads : List WorkloadRef → String → P.State → P.State
  execute_label_workloads wls violation_level = label_all (to_lower P.unicode violation_level) wls

  -- The last loop of `restoreCompliance`.
  unfoldable pub unlabel_all : List WorkloadRef → P.State → P.State
  unlabel_all [] s = s
  unlabel_all (wl ∷ wls) s = unlabel_all wls (remove_workload_label label_pipeline_risk wl s).1

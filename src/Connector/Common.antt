-- ===== src/Connector/Common.antt =====
-- internal/connector: what the three connectors have alike.
use fluxgate_operator.Prelude.{List, [], map, Result, ok, err, wrap, String, concat, ◌∷◌}
use fluxgate_operator.Api.{ObjectMeta, WorkloadRef}
use fluxgate_operator.Connector.Types.{PipelineSource}
use fluxgate_operator.Platform.{Platform, NamespacedName}

-- The object that a patch of a source is sent to.
abbrev pub source_key : PipelineSource → NamespacedName
source_key src = record { name = src.source_name; namespace = src.namespace }

abbrev pub workload_ref : String → ObjectMeta → WorkloadRef
workload_ref kind m = record { kind = kind; name = m.name; namespace = m.namespace }

-- A `List` of workloads of a kind, as references.
unfoldable pub list_workload_refs :
    (P : Platform) → String → String → String → P.State → Result (List WorkloadRef)
list_workload_refs P kind plural ns s = elim (P.list_workloads s kind ns) [
  | err e ↦ err (wrap (concat ("listing " ∷ plural ∷ " in " ∷ ns ∷ ": " ∷ [])) e)
  | ok items ↦ ok (map (workload_ref kind) items)
]

-- ===== src/Controller/Discovery.antt =====
-- internal/controller/discovery_controller.go: the registry of sources, and the reconciler that
-- fills it.
pub mod Laws
pub mod Rounds
pub mod Settled
use fluxgate_operator.Prelude.{
  ℕ, ◌*◌, Bool, true, false, not, ◌||◌, List, [], ◌∷◌, map, length, Dict, lookup, insert, Option,
  none, some, Result, ok, err, String, ◌==◌, print_slice, pos, if◌then◌else◌,
}
use fluxgate_operator.Connector.Types.{PipelineConnector, PipelineSource}
use fluxgate_operator.Platform.{
  Manager, Setup, Platform, NamespacedName, CtrlResult, requeue, minute,
}
use fluxgate_operator.Platform.World.{World, measure, pipelines_discovered}

-- `SourceRegistry`: sources by their `Name`.
abbrev pub Registry : Type 0
Registry = Dict PipelineSource

-- `NewSourceRegistry`
abbrev pub new_registry : Registry
new_registry = []

-- `Put`
unfoldable pub put : PipelineSource → Registry → Registry
put src r = insert src.name src r

-- `Get`
unfoldable pub get : String → Registry → Option PipelineSource
get name r = lookup name r

-- `List`, in the order in which the map was filled; Go leaves the order open.
unfoldable pub list : Registry → List PipelineSource
list r = map (λ (k, src). src) r

-- `sourceChanged`
unfoldable pub source_changed : PipelineSource → PipelineSource → Bool
source_changed old new =
    if not (old.repository == new.repository)
    then true
    else if not (old.branch == new.branch)
    then true
    else not (print_slice old.paths == print_slice new.paths)

-- The body of the loop over the sources that a connector found.
unfoldable pub register : PipelineSource → Registry → Registry
register src r = elim (get src.name r) [
  | none ↦ put src r
  | some existing ↦ if source_changed existing src then put src r else r
]

unfoldable pub register_all : List PipelineSource → Registry → Registry
register_all [] r = r
register_all (src ∷ srcs) r = register_all srcs (register src r)

module _ (P : Platform) where
  -- One connector: its failure leaves all as it was.
  unfoldable pub discover_by : PipelineConnector P.State → String → World P → World P
  discover_by conn namespace w = elim (conn.discover w.api namespace) [
    | err e ↦ w
    | ok sources ↦
        let w' = measure P (pipelines_discovered conn.name (length sources)) w in
        record w' { registry = register_all sources w'.registry }
  ]

  unfoldable pub discover_all : List (PipelineConnector P.State) → String → World P → World P
  discover_all [] namespace w = w
  discover_all (conn ∷ conns) namespace w =
      discover_all conns namespace (discover_by conn namespace w)

  -- `DiscoveryController.Reconcile`
  unfoldable pub reconcile :
      List (PipelineConnector P.State) → NamespacedName → World P → Result CtrlResult × World P
  reconcile connectors nn w =
      (ok (requeue (pos (5 * minute))), discover_all connectors nn.namespace w)

-- `SetupWithManager`
abbrev pub setup_with_manager : Manager → Setup
setup_with_manager mgr = record {
  has_recorder = false;
  answer = mgr.complete "Namespace" "discovery";
}

-- ===== src/Operator.antt =====
-- cmd/operator/main.go: the wiring of the connectors, the registry, the analyzer and the four controllers,
-- and the start of the manager.
pub mod System
pub mod Startup
pub mod Registry
pub mod Queue
pub mod Bootstrap
pub mod Sources
pub mod Enforcement
pub mod Restoration
use fluxgate_operator.Prelude.{
  ℕ, ◌*◌, Bool, true, false, List, [], ◌∷◌, Result, ok, err, String, pos, ◌>>=◌,
}
use fluxgate_operator.Connector.Types.{PipelineConnector, PipelineSource}
use fluxgate_operator.Connector.ArgoCd.{argo_cd_connector}
use fluxgate_operator.Connector.Flux.{flux_connector}
use fluxgate_operator.Connector.Tekton.{tekton_connector}
use fluxgate_operator.Platform.{Platform, Manager, Setup, NamespacedName, CtrlResult, minute}
use fluxgate_operator.Platform.World.{World, Op}
use fluxgate_operator.Analyzer.Analyze.{Analyzer, new_analyzer}
use fluxgate_operator.Controller.Report
use fluxgate_operator.Controller.Policy.Enforce
use fluxgate_operator.Controller.Discovery
use fluxgate_operator.Controller.Analysis

-- The four controllers, in the order in which `main` sets them up.
pub data Controller : Type 0 where
  discovery : Controller
  analysis : Controller
  report : Controller
  policy : Controller

abbrev pub controllers : List Controller
controllers = discovery ∷ analysis ∷ report ∷ policy ∷ []

abbrev pub setup : Manager → Controller → Setup
setup mgr discovery = Discovery.setup_with_manager mgr
setup mgr analysis = Analysis.setup_with_manager mgr
setup mgr report = Report.setup_with_manager mgr
setup mgr policy = Enforce.setup_with_manager mgr

-- The calls that set the controllers up, up to the first that fails, and those that were registered.
unfoldable pub set_up : Manager → List Controller → Result (Unit {0}) × List Controller
set_up mgr [] = (ok tt, [])
set_up mgr (c ∷ cs) =
    let (answer, registered) = set_up mgr cs in
    elim (setup mgr c).answer [ err e ↦ (err e, []) | ok done ↦ (answer, c ∷ registered) ]

-- What `main` did: the status of the exit, the controllers that were registered, and whether the manager
-- was started.
pub record Run : Type 0 where
  pub status : ℕ
  pub registered : List Controller
  pub started : Bool

abbrev pub exit_status : Result (Unit {0}) → ℕ
exit_status (ok done) = 0
exit_status (err e) = 1

-- What follows the setup of the controllers.
unfoldable pub start_after : Manager → Result (Unit {0}) × List Controller → Run
start_after mgr (err e, registered) = record {
  status = 1;
  registered = registered;
  started = false;
}
start_after mgr (ok done, registered) = record {
  status = exit_status mgr.start;
  registered = registered;
  started = true;
}

-- `main`
unfoldable pub main : Manager → Run
main mgr = elim (mgr.get_config >>= λ done. mgr.new_manager) [
  | err e ↦ record { status = 1; registered = []; started = false }
  | ok done ↦ start_after mgr (set_up mgr controllers)
]

module _ (P : Platform) where
  -- The connectors of `main`.
  abbrev pub connectors : List (PipelineConnector P.State)
  connectors = argo_cd_connector P ∷ flux_connector P ∷ tekton_connector P ∷ []

  -- The analyzer of `main`: the token of the environment, and ten minutes in the cache.
  abbrev pub analyzer : String → Analyzer
  analyzer github_token = new_analyzer github_token (pos (10 * minute))

  -- The process at its start: an empty registry and an empty cache.
  abbrev pub initial : P.State → World P
  initial s = record {
    api = s;
    registry = Discovery.new_registry;
    cache = [];
    metrics = [];
    events = [];
  }

  abbrev pub on_api : (P.State → Result CtrlResult × P.State) → Op P CtrlResult
  on_api f w = let (answer, s) = f w.api in (answer, record w { api = s })

  module _ (github_token : String) (mgr : Manager) where
    -- `Reconcile` of a controller, with the fields that `main` and `SetupWithManager` give it; `order` is
    -- the order in which Go ranges over the registry this time.
    unfoldable pub reconcile :
        (List PipelineSource → List PipelineSource) → Controller → NamespacedName → Op P CtrlResult
    reconcile order discovery nn w = Discovery.reconcile P connectors nn w
    reconcile order analysis nn w =
        Analysis.reconcile P connectors (setup mgr analysis).has_recorder (analyzer github_token)
          order nn w
    reconcile order report nn w = on_api (Report.reconcile P nn) w
    reconcile order policy nn w =
        Enforce.reconcile P connectors (setup mgr policy).has_recorder nn w

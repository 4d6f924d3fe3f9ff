-- ===== src/Lib.antt =====
-- fluxgate-operator: a Kubernetes operator that finds the CI/CD pipelines of a cluster, scans the
-- GitHub workflows behind them and enforces policies on what it finds.
--
-- Parts and files. The custom resources (api/v1alpha1/types.go) are the records of Api. Their
-- copies (api/v1alpha1/zz_generated.deepcopy.go) are in Api/Copies, over the structs as they lie in memory
-- (Api/Stored, Api/Memory); Api/Layouts says what a struct in memory stands for. A pass of the program goes
-- through these parts:
--   * Connector: PipelineConnector is the record of that name in Connector/Types, over the state of the
--     platform. ParseRepoURL of internal/connector/repourl.go is parse_repo_url in Connector/RepoUrl;
--     internal/connector/argocd.go, flux.go and tekton.go are Connector/ArgoCd, Flux and Tekton, each
--     with Discover, ResolveWorkloads, Suspend and Resume, and Connector/Common has what they share;
--     TektonParamValue.UnmarshalJSON is in Connector/Tekton/ParamValue.
--   * Controller/Discovery: SourceRegistry and DiscoveryController.Reconcile of
--     internal/controller/discovery_controller.go. The registry is an association list in the World.
--   * Analyzer: Analyze (Analyzer/Analyze: the cache, the fetch and the scan) and ComputeComplianceState
--     (Analyzer/Compliance) of internal/analyzer/analyzer.go, and FetchWorkflowFiles with its requests
--     (Analyzer/GitHub) of internal/analyzer/github.go.
--   * Controller/Analysis: internal/controller/analysis_controller.go: analyzeSource is analyze_source,
--     which calls analyze and stores a report by store_report; sanitizeName is in its child Naming.
--   * Controller/Report: ReportController.Reconcile of internal/controller/report_controller.go.
--   * Controller/Policy: internal/controller/policy_controller.go, by what its methods do: Select
--     (selectorMatches), Thresholds (evaluateThresholds, triggerMatches), Workloads (the risk labels),
--     Suspend (executeSuspendSync), Restore (restoreCompliance), Enforce (executeAnnotate, executeAlert,
--     executeEnforcement, Reconcile).
--   * Operator: cmd/operator/main.go, with the connectors, the registry, the analyzer and the controllers
--     that it wires, and the SetupWithManager of each controller. Operator/System is the running process
--     as a step relation: a watch puts a request into the queue, a request is served by the Reconcile of
--     its controller and put back if it is to be repeated, or the state outside changes.
--   * Alert and Metrics: internal/alert/alert.go, and internal/metrics/metrics.go, whose collectors are in
--     Metrics/Collectors. What a scrape shows of them is a parameter. Json has the JSON values that patches and payloads are made of.
-- The modules below a part hold proofs about it, unless they are named above: Laws, and by subject
-- Connector/Found and MergePatch, Analyzer/Compliance/Counts and State, Analyzer/GitHub/Requests,
-- Connector/Flux/Index, Connector/Tekton/GitParams, Controller/Discovery/Rounds and Settled,
-- Controller/Analysis/Notices, Gauges, Notes, Collision, Rounds and Naming/Clean,
-- Controller/Policy/Suspend/Missed, Controller/Policy/Enforce/Connectors and Reconcile,
-- Controller/Policy/Frame, Operator/Startup, Registry, Queue, Bootstrap, Sources, Enforcement and Restoration, and
-- Api/Copies/Aliasing. Prelude has Go's strings, maps, integers and results; Tests has a platform in memory, runs, and theorems at concrete inputs.
--
-- State. Platform is a record of what the program runs on and does not implement: the API server, the
-- network, the clock, the decoders, url.Parse, the scanner and Go's tables of characters beyond ASCII.
-- Its State is all that lies outside the process; a read takes a state, and a write returns an answer
-- and a new state. World (Platform/World) adds what the process keeps: the registry, the cache of the
-- analyzer, the updates of the metrics and the events, oldest first. An operation is a function from a
-- World to a result and a World, and an error is a value that keeps whether it is "not found". An
-- action on a report also returns the report as it is left in memory.
-- The theorems hold for every platform, and where one needs more of it, such as KeepsStatus of
-- Controller/Report/Laws, or merge patches as RFC 7386 has them (IsMergePatch of Connector/MergePatch),
-- or writes that make no report (Keeps of Controller/Policy/Frame), that is a hypothesis, which
-- Tests/Memory, Tests/Promises and Tests/Merge fulfil. Manager (Platform) is what controller-runtime
-- answers to main.
--
-- Bounds. Counters are 64-bit integers that wrap (int_inc), and differences of times saturate, as
-- time.Time.Sub does. Every loop is over a list and is structural recursion, so that all functions are
-- total and there is no fuel but that of itoa, which is one more than the number.
--
-- Not modelled: logging, contexts and deadlines, the locks of the registry and of the cache (each
-- step is one operation, and in Operator/System a whole reconciliation is), resource versions, the
-- registration of the scheme, what the API server answers to an Update beyond its error (client-go
-- decodes the answer into the object; here a report in memory is as it was sent), changes between
-- the several List calls of one Discover, which here read one state, and the capacity and the
-- sharing of parts of an array by slices. A map of Go is an association list in the order of its
-- insertions; where a loop ranges over one, the order is a parameter.
pub mod Prelude
pub mod Api
pub mod Json
pub mod Platform
pub mod Metrics
pub mod Alert
pub mod Connector
pub mod Analyzer
pub mod Controller
pub mod Operator
pub mod Tests

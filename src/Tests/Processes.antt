-- ===== src/Tests/Processes.antt =====
-- Runs of the process, and the theorems about them at concrete inputs.
use fluxgate_operator.Prelude.{
  ◌*◌, ◌==◌, if◌then◌else◌, true, false, List, [], ◌∷◌, ◌++◌, IsIn, Error, Result-cases, ok, err,
  failure, not_found, lookup, some, String, pos, ◌≡◌, ◌⊎◌, refl, ap, sym, inl, inr, arith, eq_iff,
  texts, subst,
}
use fluxgate_operator.Connector.Types.{PipelineSource}
use fluxgate_operator.Platform.{Manager, NamespacedName}
use fluxgate_operator.Controller.Discovery.{list}
use fluxgate_operator.Controller.Discovery.Rounds.{found}
use fluxgate_operator.Controller.Analysis.Rounds.{IsEvaluated}
use fluxgate_operator.Controller.Policy.Frame.{Frame}
use fluxgate_operator.Controller.Policy.Enforce as PolicyController
use fluxgate_operator.Controller.Policy.Frame.Rounds.{reconcile-Frame}
use fluxgate_operator.Operator.{
  connectors, analyzer, initial, discovery, analysis, report, policy, main, reconcile, controllers,
}
use fluxgate_operator.Operator.System.{System, watch, serve, Reach, here, next, start, served}
use fluxgate_operator.Operator.Startup.{IsStarted, IsStopped, main-cases}
use fluxgate_operator.Operator.Registry.{connectors-keep}
use fluxgate_operator.Operator.Queue.{Reach-periodic}
use fluxgate_operator.Operator.Bootstrap.{HasNoReport, IsIdle, Reach-IsIdle}
use fluxgate_operator.Operator.Sources.{lookup-IsFound, found-IsEvaluated}
use fluxgate_operator.Tests.Memory.{Cluster, memory, find_report}
use fluxgate_operator.Tests.Data.{cluster_with, world_with, shop, shop_key}
use fluxgate_operator.Tests.Promises.{memory-NamesReports, memory-Keeps}

abbrev cluster : Cluster
cluster = cluster_with [] (pos 0)

abbrev ready : Manager
ready = record {
  get_config = ok tt;
  new_manager = ok tt;
  complete = λ kind name. ok tt;
  start = ok tt;
}

-- A manager that does not know the policies.
abbrev without_policies : Manager
without_policies = record {
  get_config = ok tt;
  new_manager = ok tt;
  complete = λ kind name. if name == "policy" then err (failure "no kind is registered") else ok tt;
  start = ok tt;
}

-- Others leave the reports alone.
abbrev SameReports : Cluster → Cluster → Type 0
SameReports a b = b.reports ≡ a.reports

abbrev ci : NamespacedName
ci = record { name = "ci"; namespace = "" }

abbrev same : List PipelineSource → List PipelineSource
same srcs = srcs

-- The watch names a namespace, and the discovery is served.
abbrev asked : System memory
asked = record { world = initial memory cluster; queue = (discovery, ci) ∷ [] }

abbrev filled : System memory
filled = served memory "" ready same [] (discovery, ci) asked.world

filled-Reach : Reach memory "" ready SameReports (start memory cluster) filled
filled-Reach =
    next (next here (watch (discovery, ci) refl))
      (serve same [] [] (discovery, ci) (λ src srcs. (λ m. m, λ m. m)) refl)

abbrev shop_in_git : PipelineSource
shop_in_git = record shop { repository = "git@github.com:acme/shop.git" }

shop-IsFound : IsIn shop_in_git (found memory "" (connectors memory) cluster)
unfolding fluxgate_operator.Connector.ArgoCd.discover_applications
    fluxgate_operator.Connector.ArgoCd.application_sources
    fluxgate_operator.Connector.ArgoCd.unmarshal_application
    fluxgate_operator.Connector.RepoUrl.parse_repo_url fluxgate_operator.Prelude.has_prefix
    fluxgate_operator.Connector.RepoUrl.parse_ssh_url fluxgate_operator.Prelude.cut
    fluxgate_operator.Connector.RepoUrl.owner_and_repo fluxgate_operator.Prelude.split_n
    fluxgate_operator.Prelude.trim_suffix fluxgate_operator.Connector.ArgoCd.application_source
shop-IsFound = inl refl

shop_filled : lookup "shop" filled.world.registry ≡ some shop_in_git
unfolding lookup reconcile fluxgate_operator.Controller.Discovery.reconcile
    fluxgate_operator.Connector.Tekton.discover_pipelines
    fluxgate_operator.Controller.Discovery.discover_all
    fluxgate_operator.Controller.Discovery.discover_by
    fluxgate_operator.Controller.Discovery.register_all
    fluxgate_operator.Controller.Discovery.register fluxgate_operator.Controller.Discovery.get
    fluxgate_operator.Controller.Discovery.put fluxgate_operator.Controller.Discovery.source_changed
    fluxgate_operator.Connector.Flux.discover_repositories
    fluxgate_operator.Connector.Flux.repository_sources
    fluxgate_operator.Connector.Flux.unmarshal_git_repository
    fluxgate_operator.Connector.Flux.sources_of_repository
    fluxgate_operator.Connector.Flux.index_kustomizations
    fluxgate_operator.Connector.Flux.add_kustomization
    fluxgate_operator.Connector.Flux.kustomization_source
    fluxgate_operator.Connector.Flux.reference_branch
    fluxgate_operator.Connector.Flux.repository_source
    fluxgate_operator.Connector.Flux.unmarshal_kustomization
    fluxgate_operator.Connector.ArgoCd.discover_applications
    fluxgate_operator.Connector.ArgoCd.application_sources
    fluxgate_operator.Connector.ArgoCd.unmarshal_application
    fluxgate_operator.Connector.ArgoCd.application_source
    fluxgate_operator.Connector.RepoUrl.parse_repo_url
    fluxgate_operator.Connector.RepoUrl.parse_ssh_url
    fluxgate_operator.Connector.RepoUrl.owner_and_repo fluxgate_operator.Prelude.has_prefix
    fluxgate_operator.Prelude.cut fluxgate_operator.Prelude.split_n
    fluxgate_operator.Prelude.trim_suffix fluxgate_operator.Prelude.insert
    fluxgate_operator.Prelude.wrap fluxgate_operator.Prelude.concat
    fluxgate_operator.Prelude.drop_prefix fluxgate_operator.Prelude.join
    fluxgate_operator.Prelude.print_slice fluxgate_operator.Prelude.trim_prefix
shop_filled = refl

main-cases_example :
    ((e : Error) × ((without_policies.get_config ≡ err e) ⊎ (without_policies.new_manager ≡ err e))
      × (main without_policies ≡ record { status = 1; registered = []; started = false }))
    ⊎ ((without_policies.get_config ≡ ok tt)
        × (without_policies.new_manager ≡ ok tt)
        × (IsStarted without_policies (main without_policies)
            ⊎ IsStopped without_policies (main without_policies)))
main-cases_example = main-cases without_policies

-- The policies cannot be registered: the other three are, and nothing is started.
policies_missing :
    main without_policies
    ≡ record { status = 1; registered = discovery ∷ analysis ∷ report ∷ []; started = false }
unfolding main fluxgate_operator.Operator.set_up fluxgate_operator.Operator.start_after
policies_missing = refl

Reach-periodic_example : IsIn (discovery, ci) filled.queue
Reach-periodic_example =
    Reach-periodic memory "" ready {Env = SameReports} {s = asked}
      (next here (serve same [] [] (discovery, ci) (λ src srcs. (λ m. m, λ m. m)) refl)) discovery
      ci refl (inl refl)

Reach-IsIdle_example : IsIdle memory "" ready memory-Keeps filled
unfolding find_report
Reach-IsIdle_example =
    Reach-IsIdle memory "" ready memory-Keeps (λ a b e h nn. rw e (h nn))
      (λ nn. (not_found nn.name, refl)) filled-Reach

lookup-IsFound_example :
    (shop_in_git.name ≡ "shop")
    × ((u : System memory) × Reach memory "" ready SameReports (start memory cluster) u
        × IsIn shop_in_git (found memory "" (connectors memory) u.world.api))
lookup-IsFound_example = lookup-IsFound memory "" ready filled-Reach "shop" shop_in_git shop_filled

found-IsEvaluated_example :
    (now : PipelineSource) × (now.name ≡ "shop")
    × (lookup "shop" filled.world.registry ≡ some now)
    × IsEvaluated memory
        (connectors memory)
        (analyzer memory "")
        (same (list filled.world.registry))
        now
        filled.world
        (reconcile memory "" ready same analysis shop_key filled.world).1
found-IsEvaluated_example =
    found-IsEvaluated memory "" ready {Env = SameReports} asked ci shop_key same same [] shop_in_git
      memory-NamesReports (λ src srcs. (λ m. m, λ m. m)) filled-Reach shop-IsFound here

reconcile-Frame_example :
    Frame memory
      (HasNoReport memory)
      (world_with [] (pos 0))
      (PolicyController.reconcile memory
        (connectors memory)
        true
        (record { name = "strict"; namespace = "ci" })
        (world_with [] (pos 0))).1
reconcile-Frame_example =
    reconcile-Frame memory (HasNoReport memory) memory-Keeps (connectors memory) true
      (connectors-keep memory (HasNoReport memory) memory-Keeps)
      (record { name = "strict"; namespace = "ci" }) (world_with [] (pos 0))

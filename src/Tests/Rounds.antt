-- ===== src/Tests/Rounds.antt =====
-- Theorems about whole rounds of the controllers, at concrete inputs.
use fluxgate_operator.Prelude.{
  ◌+◌, ◌*◌, All, List, [], ◌∷◌, ◌++◌, map, true, value_or, ok, String, pos, ◌≤◌, ◌≡◌, refl,
}
use fluxgate_operator.Connector.ArgoCd.{argo_cd_connector}
use fluxgate_operator.Connector.Flux.{flux_connector}
use fluxgate_operator.Connector.Tekton.{tekton_connector}
use fluxgate_operator.Connector.Found.{
  IsFound, is_application, is_flux_kind, is_pipeline, discover-IsFound,
}
use fluxgate_operator.Platform.{requeue, minute}
use fluxgate_operator.Analyzer.Compliance.{compute_compliance_state}
use fluxgate_operator.Analyzer.GitHub.{fetch_contents, fetch_workflow_files, list_url}
use fluxgate_operator.Analyzer.GitHub.Requests.{requests, workflows, fetch_workflow_files-requests}
use fluxgate_operator.Controller.Discovery.{reconcile}
use fluxgate_operator.Controller.Discovery.Rounds.{found, gauges, with_found, reconcile-with_found}
use fluxgate_operator.Controller.Analysis.{announce}
use fluxgate_operator.Controller.Analysis.Notices.{notice_of, notices, announce-notices}
use fluxgate_operator.Controller.Analysis.Notices
use fluxgate_operator.Controller.Policy.Enforce.{execute_enforcement}
use fluxgate_operator.Controller.Policy.Enforce.Connectors.{execute_enforcement-connectors}
use fluxgate_operator.Controller.Policy.Thresholds.{trigger_matches}
use fluxgate_operator.Tests.Memory.{memory}
use fluxgate_operator.Tests.Data.{
  mixed, shop, shop_key, shop_report, strict, cluster_with, world_with, connectors, analyzer,
}

discover-IsFound_example :
    All
      (IsFound memory is_application)
      (value_or [] ((argo_cd_connector memory).discover (cluster_with [] (pos 0)) "ci"))
    × All
        (IsFound memory is_flux_kind)
        (value_or [] ((flux_connector memory).discover (cluster_with [] (pos 0)) "ci"))
    × All
        (IsFound memory is_pipeline)
        (value_or [] ((tekton_connector memory).discover (cluster_with [] (pos 0)) "ci"))
discover-IsFound_example = discover-IsFound memory (cluster_with [] (pos 0)) "ci"

reconcile-with_found_example : reconcile memory connectors shop_key (world_with [] (pos 0)) ≡ (
  ok (requeue (pos (5 * minute))),
  with_found memory "ci"
      (found memory "ci" connectors (cluster_with [] (pos 0)))
      (gauges memory "ci" connectors (cluster_with [] (pos 0)))
      (world_with [] (pos 0)),
)
reconcile-with_found_example =
    reconcile-with_found memory connectors shop_key (world_with [] (pos 0))

announce-notices_example :
    let state = (compute_compliance_state mixed).0 in
    let w = world_with [] (pos 0) in
    ((announce memory true shop mixed shop_report w).metrics
      ≡ w.metrics ++ Notices.gauges shop shop_report state mixed)
    × (map notice_of (announce memory true shop mixed shop_report w).events
        ≡ map notice_of w.events ++ notices true shop_report state)
announce-notices_example =
    announce-notices memory true shop mixed shop_report (world_with [] (pos 0))

fetch_workflow_files-requests_example :
    let w = world_with [] (pos 0) in
    requests (fetch_workflow_files memory analyzer.github "acme" "shop" "main" w).1.metrics
    ≤ requests w.metrics
      + 1
      + workflows (
          value_or []
            (fetch_contents memory analyzer.github
              (list_url analyzer.github "acme" "shop" "main")
              w).0)
fetch_workflow_files-requests_example =
    fetch_workflow_files-requests memory analyzer.github "acme" "shop" "main"
      (world_with [] (pos 0))

-- "NonCompliant" does not trigger the suspension of the policy, which waits for "Critical".
execute_enforcement-connectors_example :
    execute_enforcement memory connectors true strict shop_report "NonCompliant"
      (world_with [] (pos 0))
    ≡ execute_enforcement memory [] true strict shop_report "NonCompliant" (world_with [] (pos 0))
unfolding trigger_matches fluxgate_operator.Prelude.lookup
execute_enforcement-connectors_example =
    execute_enforcement-connectors memory connectors [] true "NonCompliant" strict shop_report
      (world_with [] (pos 0)) (λ h. cc) (refl, (refl, (refl, tt)))

-- The names in the registry after a round of discovery: the application, and the Kustomization under the
-- repository that it names.
discovered :
    map
      (λ (name, src). name)
      (reconcile memory connectors shop_key (world_with [] (pos 0))).1.registry
    ≡ ("shop" ∷ "repo/ks" ∷ [])
unfolding reconcile fluxgate_operator.Controller.Discovery.discover_all
    fluxgate_operator.Controller.Discovery.discover_by
    fluxgate_operator.Controller.Discovery.register_all
    fluxgate_operator.Controller.Discovery.register fluxgate_operator.Controller.Discovery.get
    fluxgate_operator.Controller.Discovery.put fluxgate_operator.Controller.Discovery.source_changed
    fluxgate_operator.Connector.Flux.discover_repositories
    fluxgate_operator.Connector.Flux.repository_sources
    fluxgate_operator.Connector.Flux.unmarshal_git_repository
    fluxgate_operator.Connector.Flux.sources_of_repository
    fluxgate_operator.Connector.Flux.index_kustomizations
    fluxgate_operator.Connector.Flux.add_kustomization
    fluxgate_operator.Connector.Flux.kustomization_source
    fluxgate_operator.Connector.Flux.reference_branch
    fluxgate_operator.Connector.Flux.repository_source
    fluxgate_operator.Connector.Flux.unmarshal_kustomization
    fluxgate_operator.Connector.ArgoCd.discover_applications
    fluxgate_operator.Connector.ArgoCd.application_sources
    fluxgate_operator.Connector.ArgoCd.unmarshal_application
    fluxgate_operator.Connector.ArgoCd.application_source
    fluxgate_operator.Connector.RepoUrl.parse_repo_url
    fluxgate_operator.Connector.RepoUrl.parse_ssh_url
    fluxgate_operator.Connector.RepoUrl.owner_and_repo fluxgate_operator.Prelude.has_prefix
    fluxgate_operator.Prelude.cut fluxgate_operator.Prelude.split_n
    fluxgate_operator.Prelude.trim_suffix fluxgate_operator.Prelude.lookup
    fluxgate_operator.Prelude.insert fluxgate_operator.Prelude.wrap fluxgate_operator.Prelude.concat
    fluxgate_operator.Prelude.drop_prefix fluxgate_operator.Prelude.join
    fluxgate_operator.Prelude.print_slice fluxgate_operator.Prelude.trim_prefix
discovered = refl

-- The listing and the one workflow file of the repository.
fetched :
    let run =
      fetch_workflow_files memory analyzer.github "acme" "shop" "main" (world_with [] (pos 0)) in
    (requests run.1.metrics ≡ 2)
    × (run.0 ≡ ok (record { name = "ci.yml"; content = "ci.yml" } ∷ []))
unfolding fetch_workflow_files fetch_contents fluxgate_operator.Analyzer.GitHub.do_request
    fluxgate_operator.Analyzer.GitHub.send_request fluxgate_operator.Analyzer.GitHub.request_for
    fluxgate_operator.Analyzer.GitHub.read_listing fluxgate_operator.Analyzer.GitHub.read_file
    fluxgate_operator.Analyzer.GitHub.content_of fluxgate_operator.Analyzer.GitHub.fetch_files
    fluxgate_operator.Analyzer.GitHub.is_workflow
    fluxgate_operator.Analyzer.GitHub.fetch_file_content
    fluxgate_operator.Analyzer.GitHub.record_rate_limit fluxgate_operator.Tests.Memory.page_of
    fluxgate_operator.Prelude.lookup fluxgate_operator.Prelude.concat
    fluxgate_operator.Prelude.has_suffix
fetched = (refl, refl)

-- ===== src/Connector/ArgoCd.antt =====
-- internal/connector/argocd.go
use fluxgate_operator.Prelude.{
  true, ◌||◌, List, [], ◌∷◌, ◌++◌, none, some, Result, ok, err, wrap, ◌>>=◌, String, ◌==◌,
  if◌then◌else◌,
}
use fluxgate_operator.Api.{WorkloadRef}
use fluxgate_operator.Json.{Json, null, bool, obj, field, end, single}
use fluxgate_operator.Connector.Types.{ArgoCdApplication, PipelineConnector, PipelineSource}
use fluxgate_operator.Connector.Common.{source_key, list_workload_refs}
use fluxgate_operator.Connector.RepoUrl.{parse_repo_url}
use fluxgate_operator.Platform.{Platform, Gvk}

abbrev pub argo_cd_gvk : String → Gvk
argo_cd_gvk kind = record { group = "argoproj.io"; version = "v1alpha1"; kind = kind }

-- The source of an application whose URL has the given owner and name.
unfoldable pub application_source : ArgoCdApplication → String → String → PipelineSource
application_source app owner repo =
    let revision = app.spec.source.target_revision in
    record {
      name = app.meta.name;
      repository = app.spec.source.repo_url;
      branch = if revision == "" || revision == "HEAD" then "main" else revision;
      paths = app.spec.source.path ∷ [];
      platform = "github-actions";
      labels = app.meta.labels;
      namespace = app.meta.namespace;
      source_name = app.meta.name;
      source_kind = "Application";
      owner = owner;
      repo = repo;
      target_namespace = app.spec.destination.namespace;
    }

-- `{"spec":{"syncPolicy":{"automated":…}}}`
abbrev pub automated_patch : Json → Json
automated_patch value = single "spec" (single "syncPolicy" (single "automated" value))

abbrev pub argo_cd_suspend_patch : Json
argo_cd_suspend_patch = automated_patch null

abbrev pub argo_cd_resume_patch : Json
argo_cd_resume_patch =
    automated_patch (obj (field "prune" (bool true) (field "selfHeal" (bool true) end)))

module _ (P : Platform) where
  -- `unmarshalArgoCDApp`
  unfoldable pub unmarshal_application : P.Object → Result ArgoCdApplication
  unmarshal_application u = do content ← P.marshal_object u; P.decode_application content

  -- The loop of `Discover`: what cannot be read or has no owner and name is skipped.
  unfoldable pub application_sources : List P.Object → List PipelineSource
  application_sources [] = []
  application_sources (item ∷ items) =
      let rest = application_sources items in
      elim (unmarshal_application item) [
        | err e ↦ rest
        | ok app ↦ elim (parse_repo_url P.url_path app.spec.source.repo_url) [
          | none ↦ rest
          | some (owner, repo) ↦ application_source app owner repo ∷ rest
        ]
      ]

  -- `Discover`
  unfoldable pub discover_applications : P.State → String → Result (List PipelineSource)
  discover_applications s namespace =
      elim (P.list_objects s (argo_cd_gvk "ApplicationList") namespace) [
        | err e ↦ err (wrap "listing ArgoCD Applications: " e)
        | ok items ↦ ok (application_sources items)
      ]

  -- `ResolveWorkloads`
  unfoldable pub application_workloads : P.State → PipelineSource → Result (List WorkloadRef)
  application_workloads s src =
      let ns = src.target_namespace in
      if ns == "" then ok [] else do
        deployments ← list_workload_refs P "Deployment" "deployments" ns s
        stateful_sets ← list_workload_refs P "StatefulSet" "statefulsets" ns s
        ok (deployments ++ stateful_sets)

  -- `Suspend`
  abbrev pub suspend_application : P.State → PipelineSource → Result (Unit {0}) × P.State
  suspend_application s src =
      P.patch_object s (argo_cd_gvk "Application") (source_key src) argo_cd_suspend_patch

  -- `Resume`
  abbrev pub resume_application : P.State → PipelineSource → Result (Unit {0}) × P.State
  resume_application s src =
      P.patch_object s (argo_cd_gvk "Application") (source_key src) argo_cd_resume_patch

  -- `ArgoCDConnector`
  abbrev pub argo_cd_connector : PipelineConnector P.State
  argo_cd_connector = record {
    name = "argocd";
    discover = discover_applications;
    resolve_workloads = application_workloads;
    suspend = suspend_application;
    resume = resume_application;
  }

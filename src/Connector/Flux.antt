-- ===== src/Connector/Flux.antt =====
-- internal/connector/flux.go
pub mod Index
use fluxgate_operator.Prelude.{
  Bool, true, false, List, [], ◌∷◌, ◌++◌, map, push, Dict, lookup, insert, Option, none, some,
  Result, ok, err, wrap, ◌>>=◌, String, ◌==◌, concat, if◌then◌else◌,
}
use fluxgate_operator.Api.{WorkloadRef}
use fluxgate_operator.Json.{Json, bool, single}
use fluxgate_operator.Connector.Types.{
  FluxGitReference, FluxGitRepository, FluxKustomization, PipelineConnector, PipelineSource,
}
use fluxgate_operator.Connector.Common.{source_key, list_workload_refs}
use fluxgate_operator.Connector.RepoUrl.{parse_repo_url}
use fluxgate_operator.Platform.{Platform, Gvk}

abbrev pub kustomize_gvk : String → Gvk
kustomize_gvk kind = record { group = "kustomize.toolkit.fluxcd.io"; version = "v1"; kind = kind }

abbrev pub source_gvk : String → Gvk
source_gvk kind = record { group = "source.toolkit.fluxcd.io"; version = "v1"; kind = kind }

-- The branch, else the tag, else "main".
unfoldable pub reference_branch : Option FluxGitReference → String
reference_branch none = "main"
reference_branch (some r) =
    if r.branch == "" then (if r.tag == "" then "main" else r.tag) else r.branch

-- `fmt.Sprintf("%s/%s", kind, name)`
abbrev pub source_ref_key : String → String → String
source_ref_key kind name = concat (kind ∷ "/" ∷ name ∷ [])

-- One round of the index of Kustomizations by what they refer to.
unfoldable pub add_kustomization :
    FluxKustomization → Dict (List FluxKustomization) → Dict (List FluxKustomization)
add_kustomization ks index =
    let key = source_ref_key ks.spec.source_ref.kind ks.spec.source_ref.name in
    let before : List FluxKustomization = elim (lookup key index) [ none ↦ [] | some l ↦ l ] in
    insert key (push before ks) index

-- The source of a repository that no Kustomization refers to.
unfoldable pub repository_source : FluxGitRepository → String → String → PipelineSource
repository_source g owner repo = record {
  name = g.meta.name;
  repository = g.spec.url;
  branch = reference_branch g.spec.reference;
  paths = [];
  platform = "github-actions";
  labels = g.meta.labels;
  namespace = g.meta.namespace;
  source_name = g.meta.name;
  source_kind = "GitRepository";
  owner = owner;
  repo = repo;
  target_namespace = "";
}

-- The source of a Kustomization of a repository.
unfoldable pub kustomization_source :
    FluxGitRepository → String → String → FluxKustomization → PipelineSource
kustomization_source g owner repo ks = record {
  name = concat (g.meta.name ∷ "/" ∷ ks.meta.name ∷ []);
  repository = g.spec.url;
  branch = reference_branch g.spec.reference;
  paths = if ks.spec.path == "" then [] else ks.spec.path ∷ [];
  platform = "github-actions";
  labels = g.meta.labels;
  namespace = g.meta.namespace;
  source_name = ks.meta.name;
  source_kind = "Kustomization";
  owner = owner;
  repo = repo;
  target_namespace =
      if ks.spec.target_namespace == "" then ks.meta.namespace else ks.spec.target_namespace;
}

-- The sources of one repository: one for each of its Kustomizations, or one for itself.
unfoldable pub sources_of_repository :
    FluxGitRepository → String → String → List FluxKustomization → List PipelineSource
sources_of_repository g owner repo [] = repository_source g owner repo ∷ []
sources_of_repository g owner repo (ks ∷ kss) = map (kustomization_source g owner repo) (ks ∷ kss)

-- `{"spec":{"suspend":…}}`
abbrev pub suspend_patch : Bool → Json
suspend_patch on = single "spec" (single "suspend" (bool on))

module _ (P : Platform) where
  -- `unmarshalFluxGitRepo`
  unfoldable pub unmarshal_git_repository : P.Object → Result FluxGitRepository
  unmarshal_git_repository u = do content ← P.marshal_object u; P.decode_git_repository content

  -- `unmarshalFluxKustomization`
  unfoldable pub unmarshal_kustomization : P.Object → Result FluxKustomization
  unmarshal_kustomization u = do content ← P.marshal_object u; P.decode_kustomization content

  -- The index: what cannot be read is skipped.
  unfoldable pub index_kustomizations :
      List P.Object → Dict (List FluxKustomization) → Dict (List FluxKustomization)
  index_kustomizations [] index = index
  index_kustomizations (item ∷ items) index =
      index_kustomizations items
        (elim (unmarshal_kustomization item) [ err e ↦ index | ok ks ↦ add_kustomization ks index ])

  abbrev pub kustomizations_of :
      Dict (List FluxKustomization) → FluxGitRepository → List FluxKustomization
  kustomizations_of index g = elim (lookup (source_ref_key "GitRepository" g.meta.name) index) [
    | none ↦ []
    | some kss ↦ kss
  ]

  -- The loop over the repositories.
  unfoldable pub repository_sources :
      Dict (List FluxKustomization) → List P.Object → List PipelineSource
  repository_sources index [] = []
  repository_sources index (item ∷ items) =
      let rest = repository_sources index items in
      elim (unmarshal_git_repository item) [
        | err e ↦ rest
        | ok g ↦ elim (parse_repo_url P.url_path g.spec.url) [
          | none ↦ rest
          | some (owner, repo) ↦
              sources_of_repository g owner repo (kustomizations_of index g) ++ rest
        ]
      ]

  -- `Discover`
  unfoldable pub discover_repositories : P.State → String → Result (List PipelineSource)
  discover_repositories s namespace =
      elim (P.list_objects s (source_gvk "GitRepositoryList") namespace) [
        | err e ↦ err (wrap "listing Flux GitRepositories: " e)
        | ok repositories ↦ elim (P.list_objects s (kustomize_gvk "KustomizationList") namespace) [
          | err e ↦ err (wrap "listing Flux Kustomizations: " e)
          | ok kustomizations ↦
              ok (repository_sources (index_kustomizations kustomizations []) repositories)
        ]
      ]

  -- `ResolveWorkloads`
  unfoldable pub repository_workloads : P.State → PipelineSource → Result (List WorkloadRef)
  repository_workloads s src =
      let ns = src.target_namespace in
      if ns == "" then ok [] else list_workload_refs P "Deployment" "deployments" ns s

  -- `Suspend`
  abbrev pub suspend_kustomization : P.State → PipelineSource → Result (Unit {0}) × P.State
  suspend_kustomization s src =
      P.patch_object s (kustomize_gvk "Kustomization") (source_key src) (suspend_patch true)

  -- `Resume`
  abbrev pub resume_kustomization : P.State → PipelineSource → Result (Unit {0}) × P.State
  resume_kustomization s src =
      P.patch_object s (kustomize_gvk "Kustomization") (source_key src) (suspend_patch false)

  -- `FluxConnector`
  abbrev pub flux_connector : PipelineConnector P.State
  flux_connector = record {
    name = "flux";
    discover = discover_repositories;
    resolve_workloads = repository_workloads;
    suspend = suspend_kustomization;
    resume = resume_kustomization;
  }

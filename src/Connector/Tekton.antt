-- ===== src/Connector/Tekton.antt =====
-- internal/connector/tekton.go
pub mod ParamValue
pub mod GitParams
use fluxgate_operator.Prelude.{
  Bool, true, false, not, ◌||◌, List, [], ◌∷◌, any, Dict, lookup, insert, Option, none, some,
  Result, ok, err, wrap, ◌>>=◌, String, ◌==◌, if◌then◌else◌,
}
use fluxgate_operator.Api.{WorkloadRef}
use fluxgate_operator.Json.{Json, null, str, single}
use fluxgate_operator.Connector.Types.{
  PipelineConnector, PipelineSource, TektonParam, TektonPipeline, TektonPipelineRun,
  TektonPipelineTask,
}
use fluxgate_operator.Connector.Common.{source_key, list_workload_refs}
use fluxgate_operator.Connector.RepoUrl.{parse_repo_url}
use fluxgate_operator.Platform.{Platform, Gvk}

abbrev pub tekton_gvk : String → Gvk
tekton_gvk kind = record { group = "tekton.dev"; version = "v1"; kind = kind }

abbrev tekton_suspend_annotation : String
tekton_suspend_annotation = "fluxgate.north-echo.dev/suspended"

abbrev pub is_url_param : String → Bool
is_url_param name =
    name == "git-url" || name == "repo-url" || name == "repository-url" || name == "url"

abbrev pub is_branch_param : String → Bool
is_branch_param name = name == "git-revision" || name == "revision" || name == "branch"

-- The loop of `extractGitParams`: a later parameter overrides an earlier one.
unfoldable pub git_params_from : List TektonParam → String → String → String × String
git_params_from [] repo_url branch = (repo_url, branch)
git_params_from (p ∷ ps) repo_url branch = elim p.default [
  | none ↦ git_params_from ps repo_url branch
  | some d ↦
      git_params_from ps (if is_url_param p.name then d.string_val else repo_url)
        (if is_branch_param p.name then d.string_val else branch)
]

-- `extractGitParams`
unfoldable pub extract_git_params : TektonPipeline → String × String
extract_git_params pipeline = git_params_from pipeline.spec.params "" ""

abbrev has_bundle : TektonPipelineTask → Bool
has_bundle task = elim task.task_ref [ none ↦ false | some r ↦ not (r.bundle == "") ]

abbrev is_active : Dict Bool → String → Bool
is_active active name = elim (lookup name active) [ none ↦ false | some b ↦ b ]

-- The pipeline's labels, with the marks for use and for external tasks.
unfoldable pub pipeline_labels : TektonPipeline → Dict Bool → Dict String
pipeline_labels pipeline active =
    let labels =
      (if is_active active pipeline.meta.name
        then insert "fluxgate.north-echo.dev/active" "true" pipeline.meta.labels
        else pipeline.meta.labels) in
    if any has_bundle pipeline.spec.tasks
    then insert "fluxgate.north-echo.dev/external-tasks" "true" labels
    else labels

unfoldable pub pipeline_source :
    TektonPipeline → Dict Bool → String → String → String → String → PipelineSource
pipeline_source pipeline active repo_url branch owner repo = record {
  name = pipeline.meta.name;
  repository = repo_url;
  branch = if branch == "" then "main" else branch;
  paths = [];
  platform = "github-actions";
  labels = pipeline_labels pipeline active;
  namespace = pipeline.meta.namespace;
  source_name = pipeline.meta.name;
  source_kind = "Pipeline";
  owner = owner;
  repo = repo;
  target_namespace = "";
}

-- `{"metadata":{"annotations":{…:value}}}`
abbrev annotation_patch : Json → Json
annotation_patch value =
    single "metadata" (single "annotations" (single tekton_suspend_annotation value))

module _ (P : Platform) where
  -- `unmarshalTektonPipeline`
  unfoldable pub unmarshal_pipeline : P.Object → Result TektonPipeline
  unmarshal_pipeline u = do content ← P.marshal_object u; P.decode_pipeline content

  -- `unmarshalTektonPipelineRun`
  unfoldable pub unmarshal_pipeline_run : P.Object → Result TektonPipelineRun
  unmarshal_pipeline_run u = do content ← P.marshal_object u; P.decode_pipeline_run content

  abbrev mark_active : TektonPipelineRun → Dict Bool → Dict Bool
  mark_active run active = elim run.spec.pipeline_ref [
    | none ↦ active
    | some r ↦ if r.name == "" then active else insert r.name true active
  ]

  -- The pipelines that runs refer to.
  unfoldable pub active_pipelines : List P.Object → Dict Bool → Dict Bool
  active_pipelines [] active = active
  active_pipelines (item ∷ items) active =
      active_pipelines items
        (elim (unmarshal_pipeline_run item) [ err e ↦ active | ok run ↦ mark_active run active ])

  -- One pipeline: `none` where it has no URL, or one without owner and name.
  unfoldable pub source_of_pipeline : Dict Bool → TektonPipeline → Option PipelineSource
  source_of_pipeline active pipeline =
      let (repo_url, branch) = extract_git_params pipeline in
      if repo_url == "" then none else elim (parse_repo_url P.url_path repo_url) [
        | none ↦ none
        | some (owner, repo) ↦ some (pipeline_source pipeline active repo_url branch owner repo)
      ]

  -- The loop over the pipelines.
  unfoldable pub pipeline_sources : Dict Bool → List P.Object → List PipelineSource
  pipeline_sources active [] = []
  pipeline_sources active (item ∷ items) =
      let rest = pipeline_sources active items in
      elim (unmarshal_pipeline item) [
        | err e ↦ rest
        | ok pipeline ↦ elim (source_of_pipeline active pipeline) [
          | none ↦ rest
          | some src ↦ src ∷ rest
        ]
      ]

  -- `Discover`: runs that cannot be listed mark nothing.
  unfoldable pub discover_pipelines : P.State → String → Result (List PipelineSource)
  discover_pipelines s namespace = elim (P.list_objects s (tekton_gvk "PipelineList") namespace) [
    | err e ↦ err (wrap "listing Tekton Pipelines: " e)
    | ok pipelines ↦ elim (P.list_objects s (tekton_gvk "PipelineRunList") namespace) [
      | err e ↦ ok (pipeline_sources [] pipelines)
      | ok runs ↦ ok (pipeline_sources (active_pipelines runs []) pipelines)
    ]
  ]

  -- `ResolveWorkloads`
  unfoldable pub pipeline_workloads : P.State → PipelineSource → Result (List WorkloadRef)
  pipeline_workloads s src =
      let ns = src.namespace in
      if ns == "" then ok [] else list_workload_refs P "Deployment" "deployments" ns s

  -- `Suspend`
  abbrev pub suspend_pipeline : P.State → PipelineSource → Result (Unit {0}) × P.State
  suspend_pipeline s src =
      P.patch_object s (tekton_gvk "Pipeline") (source_key src) (annotation_patch (str "true"))

  -- `Resume`
  abbrev pub resume_pipeline : P.State → PipelineSource → Result (Unit {0}) × P.State
  resume_pipeline s src =
      P.patch_object s (tekton_gvk "Pipeline") (source_key src) (annotation_patch null)

  -- `TektonConnector`
  abbrev pub tekton_connector : PipelineConnector P.State
  tekton_connector = record {
    name = "tekton";
    discover = discover_pipelines;
    resolve_workloads = pipeline_workloads;
    suspend = suspend_pipeline;
    resume = resume_pipeline;
  }

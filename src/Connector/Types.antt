-- ===== src/Connector/Types.antt =====
-- internal/connector: `PipelineSource`, and the minimal resource types of ArgoCD, Flux and Tekton.
use fluxgate_operator.Prelude.{Bool, Dict, List, Option, Result, String}
use fluxgate_operator.Api.{ObjectMeta, WorkloadRef}

pub record PipelineSource : Type 0 where
  pub name : String
  pub repository : String
  pub branch : String
  pub paths : List String
  pub platform : String
  pub labels : Dict String
  pub namespace : String
  pub source_name : String
  pub source_kind : String
  pub owner : String
  pub repo : String
  pub target_namespace : String

pub record ArgoCdSource : Type 0 where
  pub repo_url : String
  pub path : String
  pub target_revision : String

pub record ArgoCdDestination : Type 0 where
  pub server : String
  pub namespace : String

pub record ArgoCdAutomatedSync : Type 0 where
  pub prune : Bool
  pub self_heal : Bool

pub record ArgoCdSyncPolicy : Type 0 where
  pub automated : Option ArgoCdAutomatedSync

pub record ArgoCdApplicationSpec : Type 0 where
  pub source : ArgoCdSource
  pub destination : ArgoCdDestination
  pub sync_policy : Option ArgoCdSyncPolicy

pub record ArgoCdApplication : Type 0 where
  pub meta : ObjectMeta
  pub spec : ArgoCdApplicationSpec

pub record FluxGitReference : Type 0 where
  pub branch : String
  pub tag : String
  pub commit : String

pub record FluxGitRepoSpec : Type 0 where
  pub url : String
  pub reference : Option FluxGitReference

pub record FluxGitRepository : Type 0 where
  pub meta : ObjectMeta
  pub spec : FluxGitRepoSpec

pub record FluxSourceRef : Type 0 where
  pub kind : String
  pub name : String
  pub namespace : String

pub record FluxKustomizationSpec : Type 0 where
  pub source_ref : FluxSourceRef
  pub path : String
  pub suspend : Bool
  pub target_namespace : String

pub record FluxKustomization : Type 0 where
  pub meta : ObjectMeta
  pub spec : FluxKustomizationSpec

pub record TektonTaskRef : Type 0 where
  pub name : String
  pub bundle : String

pub record TektonStep : Type 0 where
  pub name : String
  pub image : String
  pub script : String
  pub command : List String

pub record TektonTaskSpec : Type 0 where
  pub steps : List TektonStep

pub record TektonPipelineTask : Type 0 where
  pub name : String
  pub task_ref : Option TektonTaskRef
  pub task_spec : Option TektonTaskSpec

pub record TektonParamValue : Type 0 where
  pub type : String
  pub string_val : String

pub record TektonParam : Type 0 where
  pub name : String
  pub type : String
  pub default : Option TektonParamValue

pub record TektonPipelineSpec : Type 0 where
  pub tasks : List TektonPipelineTask
  pub params : List TektonParam

pub record TektonPipeline : Type 0 where
  pub meta : ObjectMeta
  pub spec : TektonPipelineSpec

pub record TektonPipelineRef : Type 0 where
  pub name : String

pub record TektonPipelineRunSpec : Type 0 where
  pub pipeline_ref : Option TektonPipelineRef

pub record TektonPipelineRun : Type 0 where
  pub meta : ObjectMeta
  pub spec : TektonPipelineRunSpec

-- The interface `PipelineConnector`, over the states of the platform.
pub record PipelineConnector (State : Type 0) : Type 0 where
  pub name : String
  pub discover : State → String → Result (List PipelineSource)
  pub resolve_workloads : State → PipelineSource → Result (List WorkloadRef)
  pub suspend : State → PipelineSource → Result (Unit {0}) × State
  pub resume : State → PipelineSource → Result (Unit {0}) × State

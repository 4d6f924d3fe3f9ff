-- ===== src/Platform.antt =====
-- What the program runs on and does not implement: the Kubernetes API through `client.Client`, the
-- network through `net/http`, the clock, the text forms of times, the decoders, the URL parser and
-- the Fluxgate scanner. `State` is all that lies outside the process. A read sees the state of its
-- moment; a write returns a new one, which also holds what others did meanwhile.
pub mod World
use fluxgate_operator.Prelude.{Bool, Dict, List, Option, Result, String, Unicode, ℕ, ℤ, pos}
use fluxgate_operator.Api.{ObjectMeta, PipelineSecurityPolicy, PipelineSecurityReport}
use fluxgate_operator.Json.{Json}
use fluxgate_operator.Connector.Types.{
  ArgoCdApplication, FluxGitRepository, FluxKustomization, TektonPipeline, TektonPipelineRun,
}

pub record NamespacedName : Type 0 where
  pub name : String
  pub namespace : String

-- `schema.GroupVersionKind`
pub record Gvk : Type 0 where
  pub group : String
  pub version : String
  pub kind : String

-- `ctrl.Result`: the delay in nanoseconds, 0 for none.
pub record CtrlResult : Type 0 where
  pub requeue_after : ℤ

abbrev pub no_requeue : CtrlResult
no_requeue = record { requeue_after = pos 0 }

abbrev pub requeue : ℤ → CtrlResult
requeue d = record { requeue_after = d }

-- `time.Minute`, in nanoseconds
abbrev pub minute : ℕ
minute = 60000000000

pub record HttpRequest : Type 0 where
  pub url : String
  pub headers : Dict String

-- The rate header is "" where the response lacks it.
pub record HttpResponse {ℓ} (Bytes : Type ℓ) : Type ℓ where
  pub status_code : ℕ
  pub rate_remaining : String
  pub body : Bytes

-- `githubContentEntry`, as JSON gives it.
pub record GithubContentEntry : Type 0 where
  pub name : String
  pub path : String
  pub type : String
  pub download_url : String
  pub content : String
  pub encoding : String

-- `scanner.Finding` of the Fluxgate engine.
pub record ScannerFinding : Type 0 where
  pub rule_id : String
  pub severity : String
  pub file : String
  pub line : ℤ
  pub message : String
  pub mitigations : List String

pub record Platform : Type 1 where
  pub State : Type 0
  -- `unstructured.Unstructured`, and `[]byte`
  pub Object : Type 0
  pub Bytes : Type 0
  -- Go's tables of characters.
  pub unicode : Unicode
  -- The clock, in nanoseconds of an epoch.
  pub now : State → ℤ
  -- `client.Client`: reads. The namespace "" of a list is every namespace.
  pub get_policy : State → NamespacedName → Result PipelineSecurityPolicy
  pub get_report : State → NamespacedName → Result PipelineSecurityReport
  pub list_reports : State → String → Result (List PipelineSecurityReport)
  pub get_workload : State → String → NamespacedName → Result (Unit {0})
  pub list_workloads : State → String → String → Result (List ObjectMeta)
  pub list_objects : State → Gvk → String → Result (List Object)
  -- `client.Client`: writes.
  pub create_report : State → PipelineSecurityReport → Result (Unit {0}) × State
  pub update_report : State → PipelineSecurityReport → Result (Unit {0}) × State
  pub update_report_status : State → PipelineSecurityReport → Result (Unit {0}) × State
  pub update_policy_status : State → PipelineSecurityPolicy → Result (Unit {0}) × State
  pub patch_object : State → Gvk → NamespacedName → Json → Result (Unit {0}) × State
  pub patch_workload : State → String → NamespacedName → Json → Result (Unit {0}) × State
  -- `net/http`: a POST of a JSON body, whose answer is the status; and a GET.
  pub http_post : State → String → Json → Result ℕ × State
  pub http_get : State → HttpRequest → Result (HttpResponse Bytes) × State
  -- Whether `http.NewRequestWithContext` takes the URL of a GET.
  pub check_url : String → Result (Unit {0})
  -- Decoders.
  pub marshal_object : Object → Result Bytes
  pub decode_application : Bytes → Result ArgoCdApplication
  pub decode_git_repository : Bytes → Result FluxGitRepository
  pub decode_kustomization : Bytes → Result FluxKustomization
  pub decode_pipeline : Bytes → Result TektonPipeline
  pub decode_pipeline_run : Bytes → Result TektonPipelineRun
  pub decode_entries : Bytes → Result (List GithubContentEntry)
  pub decode_entry : Bytes → Result GithubContentEntry
  pub decode_base64 : String → Result Bytes
  pub bytes_of : String → Bytes
  pub string_of : Bytes → String
  pub parse_float : String → Option ℤ
  pub parse_duration : String → Result ℤ
  pub parse_rfc3339 : String → Result ℤ
  pub format_rfc3339 : ℤ → String
  -- `url.Parse(s).Path`, `none` on an error.
  pub url_path : String → Option String
  -- `scanner.ScanWorkflowBytes(content, path, ScanOptions{})`
  pub scan_workflow_bytes : Bytes → String → Result (List ScannerFinding)

-- What the calls that `main` makes of controller-runtime answer: the configuration, the manager, the
-- registration of a controller under its name for a watched kind, and `Start`, which returns at the end.
pub record Manager : Type 0 where
  pub get_config : Result (Unit {0})
  pub new_manager : Result (Unit {0})
  pub complete : String → String → Result (Unit {0})
  pub start : Result (Unit {0})

-- A `SetupWithManager`: whether it sets the event recorder, which `GetEventRecorderFor` always gives,
-- and what `Complete` answers.
pub record Setup : Type 0 where
  pub has_recorder : Bool
  pub answer : Result (Unit {0})

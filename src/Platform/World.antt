-- ===== src/Platform/World.antt =====
-- The state of a run: what lies outside the process, the registry and the cache that the
-- controllers share, and what went to the metrics registry and the event recorder, oldest first.
use fluxgate_operator.Prelude.{Dict, List, Result, String, ℕ, ℤ, push}
use fluxgate_operator.Api.{Finding}
use fluxgate_operator.Connector.Types.{PipelineSource}
use fluxgate_operator.Platform.{Platform}

-- `cachedResult`
pub record CachedResult : Type 0 where
  pub findings : List Finding
  pub fetched_at : ℤ

-- The calls on the collectors of internal/metrics/metrics.go.
pub data MetricUpdate : Type 0 where
  compliance_state : String → String → String → ℤ → MetricUpdate
  findings_total : String → String → String → String → MetricUpdate
  pipelines_discovered : String → ℕ → MetricUpdate
  enforcement_actions : String → String → String → MetricUpdate
  evaluation_duration : String → String → ℤ → MetricUpdate
  github_api_requests : String → String → MetricUpdate
  github_api_rate_remaining : ℤ → MetricUpdate

-- `Recorder.Eventf` on a report: the report's namespace and name, the type, the reason, the text.
pub record Event : Type 0 where
  pub namespace : String
  pub name : String
  pub type : String
  pub reason : String
  pub message : String

pub record World (P : Platform) : Type 0 where
  pub api : P.State
  pub registry : Dict PipelineSource
  pub cache : Dict CachedResult
  pub metrics : List MetricUpdate
  pub events : List Event

module _ (P : Platform) where
  -- An operation: a result or an error, and what it left behind either way.
  abbrev pub Op : Type 0 → Type 0
  Op A = World P → Result A × World P

  -- One write through the API client or the network.
  abbrev pub write : {A : Type 0} → (P.State → Result A × P.State) → Op A
  write f w = let (r, s) = f w.api in (r, record w { api = s })

  abbrev pub measure : MetricUpdate → World P → World P
  measure m w = record w { metrics = push w.metrics m }

  abbrev pub emit : Event → World P → World P
  emit e w = record w { events = push w.events e }

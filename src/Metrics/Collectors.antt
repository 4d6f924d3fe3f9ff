-- ===== src/Metrics/Collectors.antt =====
-- internal/metrics/metrics.go: the collectors, their labels and `init`; and which series of which
-- collector a call of the program updates.
use fluxgate_operator.Prelude.{
  Bool, true, false, ◌&&◌, List, [], ◌∷◌, length, IsIn, Option, none, some, String, ◌==◌, ℤ, pos,
  if◌then◌else◌, ◌≡◌, refl, inl, inr, push,
}
use fluxgate_operator.Platform.World.{
  MetricUpdate, compliance_state, findings_total, pipelines_discovered, enforcement_actions,
  evaluation_duration, github_api_requests, github_api_rate_remaining,
}

-- The three kinds of collectors that the program makes.
pub data Kind : Type 0 where
  gauge counter histogram : Kind

pub record Collector : Type 0 where
  pub kind : Kind
  pub name : String
  pub labels : List String

-- `PipelineComplianceState`
abbrev pub compliance_state_collector : Collector
compliance_state_collector = record {
  kind = gauge;
  name = "fluxgate_pipeline_compliance_state";
  labels = "namespace" ∷ "name" ∷ "connector" ∷ [];
}

-- `FindingsTotal`
abbrev pub findings_total_collector : Collector
findings_total_collector = record {
  kind = gauge;
  name = "fluxgate_findings_total";
  labels = "namespace" ∷ "name" ∷ "rule_id" ∷ "severity" ∷ [];
}

-- `PipelinesDiscovered`
abbrev pub pipelines_discovered_collector : Collector
pipelines_discovered_collector = record {
  kind = gauge;
  name = "fluxgate_pipelines_discovered_total";
  labels = "connector" ∷ [];
}

-- `EnforcementActions`
abbrev pub enforcement_actions_collector : Collector
enforcement_actions_collector = record {
  kind = counter;
  name = "fluxgate_enforcement_actions_total";
  labels = "action" ∷ "namespace" ∷ "name" ∷ [];
}

-- `EvaluationDuration`
abbrev pub evaluation_duration_collector : Collector
evaluation_duration_collector = record {
  kind = histogram;
  name = "fluxgate_evaluation_duration_seconds";
  labels = "namespace" ∷ "name" ∷ [];
}

-- `GitHubAPIRequests`
abbrev pub github_api_requests_collector : Collector
github_api_requests_collector = record {
  kind = counter;
  name = "fluxgate_github_api_requests_total";
  labels = "endpoint" ∷ "status" ∷ [];
}

-- `GitHubAPIRateRemaining`
abbrev pub github_api_rate_remaining_collector : Collector
github_api_rate_remaining_collector = record {
  kind = gauge;
  name = "fluxgate_github_api_rate_remaining";
  labels = [];
}

-- What `init` registers.
abbrev pub registered : List Collector
registered =
    compliance_state_collector ∷ findings_total_collector ∷ pipelines_discovered_collector
    ∷ enforcement_actions_collector ∷ evaluation_duration_collector ∷ github_api_requests_collector
    ∷ github_api_rate_remaining_collector ∷ []

-- A call on a collector: the collector, the label values, and what is done to the series.
pub data Action : Type 0 where
  set : ℤ → Action
  inc : Action
  observe : ℤ → Action

pub record Call : Type 0 where
  pub collector : Collector
  pub values : List String
  pub action : Action

abbrev pub call_of : MetricUpdate → Call
call_of (compliance_state ns name connector value) = record {
  collector = compliance_state_collector;
  values = ns ∷ name ∷ connector ∷ [];
  action = set value;
}
call_of (findings_total ns name rule severity) = record {
  collector = findings_total_collector;
  values = ns ∷ name ∷ rule ∷ severity ∷ [];
  action = set (pos 1);
}
call_of (pipelines_discovered connector count) = record {
  collector = pipelines_discovered_collector;
  values = connector ∷ [];
  action = set (pos count);
}
call_of (enforcement_actions action ns name) = record {
  collector = enforcement_actions_collector;
  values = action ∷ ns ∷ name ∷ [];
  action = inc;
}
call_of (evaluation_duration ns name duration) = record {
  collector = evaluation_duration_collector;
  values = ns ∷ name ∷ [];
  action = observe duration;
}
call_of (github_api_requests endpoint status) = record {
  collector = github_api_requests_collector;
  values = endpoint ∷ status ∷ [];
  action = inc;
}
call_of (github_api_rate_remaining value) = record {
  collector = github_api_rate_remaining_collector;
  values = [];
  action = set value;
}

-- What can be done to a collector of each kind.
abbrev pub allows : Kind → Action → Bool
allows gauge (set v) = true
allows counter inc = true
allows histogram (observe v) = true
allows k a = false

-- A call that does not panic: on a registered collector, by its kind, with a value for each label.
abbrev pub IsCall : Call → Type 0
IsCall c =
    IsIn c.collector registered
    × (allows c.collector.kind c.action ≡ true)
    × (length c.values ≡ length c.collector.labels)

call_of-IsCall : (m : MetricUpdate) → IsCall (call_of m)
call_of-IsCall (compliance_state ns name connector value) = (inl refl, refl, refl)
call_of-IsCall (findings_total ns name rule severity) = (inr (inl refl), refl, refl)
call_of-IsCall (pipelines_discovered connector count) = (inr (inr (inl refl)), refl, refl)
call_of-IsCall (enforcement_actions action ns name) = (inr (inr (inr (inl refl))), refl, refl)
call_of-IsCall (evaluation_duration ns name duration) =
    (inr (inr (inr (inr (inl refl)))), refl, refl)
call_of-IsCall (github_api_requests endpoint status) =
    (inr (inr (inr (inr (inr (inl refl))))), refl, refl)
call_of-IsCall (github_api_rate_remaining value) =
    (inr (inr (inr (inr (inr (inr (inl refl)))))), refl, refl)

abbrev pub same_texts : List String → List String → Bool
same_texts [] [] = true
same_texts (x ∷ xs) (y ∷ ys) = x == y && same_texts xs ys
same_texts xs ys = false

-- A series of a collector by its label values.
abbrev pub is_series : Call → String → List String → Bool
is_series c name values = c.collector.name == name && same_texts c.values values

-- A gauge's series after a call that sets it, and after any other.
abbrev pub after : Call → String → List String → Option ℤ → Option ℤ
after c name values old = elim c.action [
  | set v ↦ if is_series c name values then some v else old
  | inc ↦ old
  | observe v ↦ old
]

-- What a scrape shows of the gauges by the documentation of `Set`: nothing at first, then the value
-- that was set last.
pub record IsScrape (shows : List MetricUpdate → String → List String → Option ℤ) : Type 0 where
  pub at_first : (name : String) (values : List String) → shows [] name values ≡ none
  pub shows-push :
      (ms : List MetricUpdate) (m : MetricUpdate) (name : String) (values : List String)
      → shows (push ms m) name values ≡ after (call_of m) name values (shows ms name values)

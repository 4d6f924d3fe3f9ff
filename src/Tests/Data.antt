-- ===== src/Tests/Data.antt =====
-- Findings, reports, policies, sources and worlds to run the program on.
use fluxgate_operator.Prelude.{Bool, false, List, [], ◌∷◌, Dict, none, String, ℤ, pos}
use fluxgate_operator.Api.{
  EnforcementAction, Finding, FindingSummary, PipelineSecurityPolicy, PipelineSecurityReport,
  PolicyThresholds,
}
use fluxgate_operator.Connector.Types.{PipelineConnector, PipelineSource}
use fluxgate_operator.Connector.ArgoCd.{argo_cd_connector}
use fluxgate_operator.Connector.Flux.{flux_connector}
use fluxgate_operator.Platform.{NamespacedName}
use fluxgate_operator.Platform.World.{World}
use fluxgate_operator.Analyzer.Analyze.{Analyzer}
use fluxgate_operator.Controller.Policy.Select.{label_source_kind, label_source_name}
use fluxgate_operator.Tests.Memory.{Cluster, memory}

abbrev pub finding : String → Finding
finding severity = record {
  rule = "unpinned-action";
  severity = severity;
  file = ".github/workflows/ci.yml";
  line = pos 7;
  message = "action is not pinned";
  remediation = "";
}

abbrev pub mixed : List Finding
mixed = finding "medium" ∷ finding "high" ∷ finding "odd" ∷ []

abbrev pub counted : ℤ → ℤ → ℤ → ℤ → FindingSummary
counted critical high medium total = record {
  critical = critical;
  high = high;
  medium = medium;
  low = pos 0;
  info = pos 0;
  total = total;
}

abbrev pub labels_for : String → String → Dict String
labels_for kind name = (label_source_kind, kind) ∷ (label_source_name, name) ∷ []

abbrev pub shop_key : NamespacedName
shop_key = record { name = "psr-acme-shop"; namespace = "ci" }

abbrev pub report_of :
    Dict String → Dict String → String → FindingSummary → List Finding → PipelineSecurityReport
report_of labels annotations state summary findings = record {
  meta = record {
    name = "psr-acme-shop";
    namespace = "ci";
    labels = labels;
    annotations = annotations;
  };
  status = record {
    compliance_state = state;
    last_evaluated = pos 0;
    source = record {
      repository = "git@github.com:acme/shop.git";
      branch = "main";
      workflow_path = "";
    };
    summary = summary;
    correlated_workloads = record { kind = "Deployment"; name = "web"; namespace = "prod" } ∷ [];
    findings = findings;
  };
}

abbrev pub application_labels : Dict String
application_labels = labels_for "Application" "shop"

-- A report that says the right thing of its findings, and one that has not been counted.
abbrev pub shop_report : PipelineSecurityReport
shop_report =
    report_of application_labels [] "NonCompliant" (counted (pos 0) (pos 1) (pos 1) (pos 3)) mixed

abbrev pub stale_report : PipelineSecurityReport
stale_report =
    report_of application_labels [] "Compliant" (counted (pos 0) (pos 0) (pos 0) (pos 0)) mixed

abbrev pub thresholds_of : ℤ → ℤ → Bool → PolicyThresholds
thresholds_of critical high pins = record {
  max_critical = critical;
  max_high = high;
  require_pinned_actions = pins;
  require_signed_commits = false;
  require_branch_protection = false;
}

abbrev pub action_of : String → String → String → EnforcementAction
action_of action trigger grace = record {
  action = action;
  trigger = trigger;
  grace_period = grace;
  alert_target = none;
}

abbrev pub actions : List EnforcementAction
actions =
    action_of "annotate" "Warning" ""
    ∷ action_of "alert" "NonCompliant" ""
    ∷ action_of "suspendSync" "Critical" "24h"
    ∷ []

abbrev pub policy_of :
    List String → PolicyThresholds → ℤ → List EnforcementAction → PipelineSecurityPolicy
policy_of kinds thresholds interval enforcement = record {
  meta = record { name = "strict"; namespace = "ci"; labels = []; annotations = [] };
  spec = record {
    selector = record { cicd_kinds = kinds; match_labels = [] };
    thresholds = thresholds;
    evaluation_interval = interval;
    enforcement = enforcement;
    rule_overrides = [];
  };
  status = record { phase = ""; message = "" };
}

abbrev pub strict : PipelineSecurityPolicy
strict = policy_of [] (thresholds_of (pos 0) (pos 0) false) (pos 0) actions

abbrev pub source_of : String → String → String → PipelineSource
source_of name owner repo = record {
  name = name;
  repository = "https://github.com/acme/shop";
  branch = "main";
  paths = "deploy" ∷ [];
  platform = "github-actions";
  labels = [];
  namespace = "ci";
  source_name = "shop";
  source_kind = "Application";
  owner = owner;
  repo = repo;
  target_namespace = "prod";
}

abbrev pub shop : PipelineSource
shop = source_of "shop" "acme" "shop"

abbrev pub cluster_with : List PipelineSecurityReport → ℤ → Cluster
cluster_with reports clock = record {
  reports = reports;
  policies = strict ∷ [];
  workloads = record { name = "web"; namespace = "prod"; labels = []; annotations = [] } ∷ [];
  clock = clock;
  patched = [];
  post_status = 204;
  pages =
      ("https://api.github.com/repos/acme/shop/contents/.github/workflows?ref=main", "")
      ∷ (
        "https://api.github.com/repos/acme/shop/contents/.github/workflows/ci.yml?ref=main",
        "ci.yml",
      )
      ∷ [];
}

abbrev pub world_with : List PipelineSecurityReport → ℤ → World memory
world_with reports clock = record {
  api = cluster_with reports clock;
  registry = ("shop", shop) ∷ [];
  cache = [];
  metrics = [];
  events = [];
}

abbrev pub connectors : List (PipelineConnector Cluster)
connectors = argo_cd_connector memory ∷ flux_connector memory ∷ []

abbrev pub analyzer : Analyzer
analyzer = record { github = record { token = ""; base_url = "" }; cache_ttl = pos 600000000000 }

-- ===== src/Api.antt =====
-- api/v1alpha1/types.go: the two custom resources, policies and reports. Of a Kubernetes object's
-- metadata the model keeps the fields that the program reads or writes. A nil map is the empty one:
-- the program reads the two alike, and makes a map before it writes.
pub mod Memory
pub mod Layouts
pub mod Stored
pub mod Copies
use fluxgate_operator.Prelude.{Bool, Dict, List, Option, String, ℤ}

-- `metav1.ObjectMeta`
pub record ObjectMeta : Type 0 where
  pub name : String
  pub namespace : String
  pub labels : Dict String
  pub annotations : Dict String

pub record PolicySelector : Type 0 where
  pub cicd_kinds : List String
  pub match_labels : Dict String

pub record PolicyThresholds : Type 0 where
  pub max_critical : ℤ
  pub max_high : ℤ
  pub require_pinned_actions : Bool
  pub require_signed_commits : Bool
  pub require_branch_protection : Bool

pub record AlertTarget : Type 0 where
  pub type : String
  pub channel : String
  pub url : String

pub record EnforcementAction : Type 0 where
  pub action : String
  pub trigger : String
  pub grace_period : String
  pub alert_target : Option AlertTarget

pub record RuleOverrideScope : Type 0 where
  pub repositories : List String

pub record RuleOverride : Type 0 where
  pub rule : String
  pub severity : String
  pub reason : String
  pub scope : Option RuleOverrideScope

-- The interval is in nanoseconds.
pub record PipelineSecurityPolicySpec : Type 0 where
  pub selector : PolicySelector
  pub thresholds : PolicyThresholds
  pub evaluation_interval : ℤ
  pub enforcement : List EnforcementAction
  pub rule_overrides : List RuleOverride

pub record PipelineSecurityPolicyStatus : Type 0 where
  pub phase : String
  pub message : String

pub record PipelineSecurityPolicy : Type 0 where
  pub meta : ObjectMeta
  pub spec : PipelineSecurityPolicySpec
  pub status : PipelineSecurityPolicyStatus

pub record PipelineSourceRef : Type 0 where
  pub repository : String
  pub branch : String
  pub workflow_path : String

pub record FindingSummary : Type 0 where
  pub critical : ℤ
  pub high : ℤ
  pub medium : ℤ
  pub low : ℤ
  pub info : ℤ
  pub total : ℤ

pub record WorkloadRef : Type 0 where
  pub kind : String
  pub name : String
  pub namespace : String

pub record Finding : Type 0 where
  pub rule : String
  pub severity : String
  pub file : String
  pub line : ℤ
  pub message : String
  pub remediation : String

-- `last_evaluated` is an instant in nanoseconds.
pub record PipelineSecurityReportStatus : Type 0 where
  pub compliance_state : String
  pub last_evaluated : ℤ
  pub source : PipelineSourceRef
  pub summary : FindingSummary
  pub correlated_workloads : List WorkloadRef
  pub findings : List Finding

pub record PipelineSecurityReport : Type 0 where
  pub meta : ObjectMeta
  pub status : PipelineSecurityReportStatus

-- ===== src/Api/Stored.antt =====
-- The structs of api/v1alpha1/types.go as they lie in memory, with addresses for their pointers, slices and
-- maps, and what a cell of the memory holds.
use fluxgate_operator.Prelude.{ℕ, Dict, List, Option, none, some, String, ℤ, refl}
use fluxgate_operator.Api.{
  AlertTarget, Finding, FindingSummary, PipelineSecurityPolicyStatus, PipelineSourceRef,
  PolicyThresholds, WorkloadRef,
}
use fluxgate_operator.Api.Memory.{Kind}

pub record StoredSelector : Type 0 where
  pub cicd_kinds : Option ℕ
  pub match_labels : Option ℕ

pub record StoredAction : Type 0 where
  pub action : String
  pub trigger : String
  pub grace_period : String
  pub alert_target : Option ℕ

pub record StoredScope : Type 0 where
  pub repositories : Option ℕ

pub record StoredOverride : Type 0 where
  pub rule : String
  pub severity : String
  pub reason : String
  pub scope : Option ℕ

pub record StoredSpec : Type 0 where
  pub selector : StoredSelector
  pub thresholds : PolicyThresholds
  pub evaluation_interval : ℤ
  pub enforcement : Option ℕ
  pub rule_overrides : Option ℕ

pub record StoredPolicy (Meta : Type 0) : Type 0 where
  pub meta : Meta
  pub spec : StoredSpec
  pub status : PipelineSecurityPolicyStatus

pub record StoredReportStatus : Type 0 where
  pub compliance_state : String
  pub last_evaluated : ℤ
  pub source : PipelineSourceRef
  pub summary : FindingSummary
  pub correlated_workloads : Option ℕ
  pub findings : Option ℕ

pub record StoredReport (Meta : Type 0) : Type 0 where
  pub meta : Meta
  pub status : StoredReportStatus

-- What a cell holds; `extra` is what the metadata leads to.
pub data Cell (Meta Extra : Type 0) : Type 0 where
  texts : List String → Cell Meta Extra
  entries : Dict String → Cell Meta Extra
  target : AlertTarget → Cell Meta Extra
  scope : StoredScope → Cell Meta Extra
  actions : List StoredAction → Cell Meta Extra
  overrides : List StoredOverride → Cell Meta Extra
  workloads : List WorkloadRef → Cell Meta Extra
  findings : List Finding → Cell Meta Extra
  policies : List (StoredPolicy Meta) → Cell Meta Extra
  reports : List (StoredReport Meta) → Cell Meta Extra
  extra : Extra → Cell Meta Extra

module _ (Meta Extra : Type 0) where
  abbrev pub texts_kind : Kind (Cell Meta Extra) (List String)
  texts_kind = record {
    make = texts;
    read = λ c. elim c [ texts x ↦ some x | _ ↦ none ];
    read-make = λ x. refl;
  }

  abbrev pub entries_kind : Kind (Cell Meta Extra) (Dict String)
  entries_kind = record {
    make = entries;
    read = λ c. elim c [ entries x ↦ some x | _ ↦ none ];
    read-make = λ x. refl;
  }

  abbrev pub target_kind : Kind (Cell Meta Extra) AlertTarget
  target_kind = record {
    make = target;
    read = λ c. elim c [ target x ↦ some x | _ ↦ none ];
    read-make = λ x. refl;
  }

  abbrev pub scope_kind : Kind (Cell Meta Extra) StoredScope
  scope_kind = record {
    make = scope;
    read = λ c. elim c [ scope x ↦ some x | _ ↦ none ];
    read-make = λ x. refl;
  }

  abbrev pub actions_kind : Kind (Cell Meta Extra) (List StoredAction)
  actions_kind = record {
    make = actions;
    read = λ c. elim c [ actions x ↦ some x | _ ↦ none ];
    read-make = λ x. refl;
  }

  abbrev pub overrides_kind : Kind (Cell Meta Extra) (List StoredOverride)
  overrides_kind = record {
    make = overrides;
    read = λ c. elim c [ overrides x ↦ some x | _ ↦ none ];
    read-make = λ x. refl;
  }

  abbrev pub workloads_kind : Kind (Cell Meta Extra) (List WorkloadRef)
  workloads_kind = record {
    make = workloads;
    read = λ c. elim c [ workloads x ↦ some x | _ ↦ none ];
    read-make = λ x. refl;
  }

  abbrev pub findings_kind : Kind (Cell Meta Extra) (List Finding)
  findings_kind = record {
    make = findings;
    read = λ c. elim c [ findings x ↦ some x | _ ↦ none ];
    read-make = λ x. refl;
  }

  abbrev pub policies_kind : Kind (Cell Meta Extra) (List (StoredPolicy Meta))
  policies_kind = record {
    make = policies;
    read = λ c. elim c [ policies x ↦ some x | _ ↦ none ];
    read-make = λ x. refl;
  }

  abbrev pub reports_kind : Kind (Cell Meta Extra) (List (StoredReport Meta))
  reports_kind = record {
    make = reports;
    read = λ c. elim c [ reports x ↦ some x | _ ↦ none ];
    read-make = λ x. refl;
  }

  abbrev pub extra_kind : Kind (Cell Meta Extra) Extra
  extra_kind = record {
    make = extra;
    read = λ c. elim c [ extra x ↦ some x | _ ↦ none ];
    read-make = λ x. refl;
  }

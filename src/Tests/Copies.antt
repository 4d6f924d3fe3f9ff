-- ===== src/Tests/Copies.antt =====
-- A policy in memory, its copy, and stores into both.
use fluxgate_operator.Prelude.{
  ℕ, ◌≤◌, Dict, List, [], ◌∷◌, Option, none, some, String, ◌≡◌, refl, arith,
}
use fluxgate_operator.Api.{ObjectMeta, AlertTarget, EnforcementAction, PipelineSecurityPolicy}
use fluxgate_operator.Api.Memory.{copy_pointer, copy_items, at}
use fluxgate_operator.Api.Layouts.{Layout, plain, pointer}
use fluxgate_operator.Api.Layouts.Pairs.{both, struct}
use fluxgate_operator.Api.Stored.{
  StoredPolicy, StoredAction, Cell, texts, target, actions, policies, entries_kind,
}
use fluxgate_operator.Api.Copies.{
  deep_copy_policy, policy_into, policy_list_into, spec_into, action_into, selector_into,
}
use fluxgate_operator.Api.Copies.Laws.{policy_layout}
use fluxgate_operator.Api.Copies.Aliasing.{IsDeepCopy, deep_copy_policy-IsDeepCopy}
use fluxgate_operator.Tests.Data.{strict}

-- Metadata with its two maps.
record StoredMeta : Type 0 where
  name : String
  namespace : String
  labels : Option ℕ
  annotations : Option ℕ

abbrev TestCell : Type 0
TestCell = Cell StoredMeta (Unit {0})

abbrev meta_parts :
    Layout TestCell
      ((String × String) × (Option ℕ × Option ℕ))
      ((String × String) × (Dict String × Dict String))
meta_parts = both plain (
    both (pointer (entries_kind StoredMeta (Unit {0})) plain [] (λ d. d))
      (pointer (entries_kind StoredMeta (Unit {0})) plain [] (λ d. d)))

meta_into : StoredMeta → List TestCell → StoredMeta × List TestCell
meta_into x m =
    let (labels, m₁) =
      copy_pointer (entries_kind StoredMeta (Unit {0})) (λ d n. (d, n)) x.labels m in
    let (notes, m₂) =
      copy_pointer (entries_kind StoredMeta (Unit {0})) (λ d n. (d, n)) x.annotations m₁ in
    (record x { labels = labels; annotations = notes }, m₂)

meta_same :
    (x : StoredMeta) (m : List TestCell)
    → meta_parts.into ((x.name, x.namespace), (x.labels, x.annotations)) m ≡ (
        let (x', m') = meta_into x m in
        (((x'.name, x'.namespace), (x'.labels, x'.annotations)), m'))
unfolding meta_into
meta_same x m = refl

abbrev meta_layout : Layout TestCell StoredMeta ObjectMeta
meta_layout =
    struct meta_parts (λ x. ((x.name, x.namespace), (x.labels, x.annotations)))
      (λ v. ((v.name, v.namespace), (v.labels, v.annotations))) meta_into meta_same

abbrev slack : AlertTarget
slack = record { type = "slack"; channel = "#ci"; url = "https://hook" }

abbrev alert : EnforcementAction
alert = record {
  action = "alert";
  trigger = "Critical";
  grace_period = "";
  alert_target = some slack;
}

abbrev alerting : PipelineSecurityPolicy
alerting = record strict {
  spec = record strict.spec {
    selector = record { cicd_kinds = "Application" ∷ []; match_labels = [] };
    enforcement = alert ∷ [];
  };
}

-- The kinds in cell 0, the actions in cell 1, and the target of the only action in cell 2.
abbrev stored : StoredPolicy StoredMeta
stored = record {
  meta = record { name = "strict"; namespace = "ci"; labels = none; annotations = none };
  spec = record {
    selector = record { cicd_kinds = some 0; match_labels = none };
    thresholds = strict.spec.thresholds;
    evaluation_interval = strict.spec.evaluation_interval;
    enforcement = some 1;
    rule_overrides = none;
  };
  status = record { phase = ""; message = "" };
}

abbrev stored_action : StoredAction
stored_action = record {
  action = "alert";
  trigger = "Critical";
  grace_period = "";
  alert_target = some 2;
}

abbrev memory : List TestCell
memory =
    texts ("Application" ∷ [])
    ∷ actions (stored_action ∷ [])
    ∷ target slack
    ∷ policies (stored ∷ [])
    ∷ []

stored_reads : (policy_layout StoredMeta (Unit {0}) meta_layout).reads memory 0 stored alerting
unfolding at
stored_reads =
    let kinds : List String = "Application" ∷ [] in
    let to_slack : (t v : AlertTarget) × (0 ≤ 2)
        × (at 2 memory ≡ some (target t))
        × (t ≡ v)
        × (some slack ≡ some v) =
      (slack, slack, omega arith, refl, refl, refl) in
    (
      refl,
      (
        (refl, (refl, refl)),
        (
          (refl, ((kinds, kinds, omega arith, refl, refl, refl), refl)),
          ((stored_action ∷ [], alert ∷ [], omega arith, refl, ((refl, to_slack), tt), refl), refl),
        ),
      ),
    )

-- A store into the target of the original: the copy still alerts the first channel.
deep_copy_policy-IsDeepCopy_example :
    let (p, m') = deep_copy_policy StoredMeta (Unit {0}) meta_layout.into (some stored) memory in
    (y : StoredPolicy StoredMeta) × (p ≡ some y)
    × IsDeepCopy
        (policy_layout StoredMeta (Unit {0}) meta_layout)
        memory
        stored
        alerting
        y
        m'
        2
        (target (record slack { channel = "#other" }))
deep_copy_policy-IsDeepCopy_example =
    deep_copy_policy-IsDeepCopy StoredMeta (Unit {0}) meta_layout stored alerting memory 2
      (target (record slack { channel = "#other" })) stored_reads

-- The copies of the kinds, of the target, of the actions and of the policies are in the cells from 4 on.
copied_list : (policy_list_into StoredMeta (Unit {0}) meta_layout.into (some 3) memory).0 ≡ some 7
unfolding policy_list_into copy_pointer at copy_items policy_into spec_into selector_into meta_into
    action_into
copied_list = refl

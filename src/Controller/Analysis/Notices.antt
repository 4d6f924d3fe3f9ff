-- ===== src/Controller/Analysis/Notices.antt =====
-- The metrics and the events that follow a stored report.
use mathlib.Core.List.{append_assoc, append-nil}
use fluxgate_operator.Prelude.{
  Bool, true, false, ◌||◌, List, [], ◌∷◌, ◌++◌, push, map, String, ◌==◌, ltb_ℤ, pos, if◌then◌else◌,
  ◌≡◌, ◌∙◌, refl, sym, ap, Bool-cases, inl, inr,
}
use fluxgate_operator.Api.{Finding, FindingSummary, PipelineSecurityReport}
use fluxgate_operator.Metrics.{compliance_state_to_float}
use fluxgate_operator.Connector.Types.{PipelineSource}
use fluxgate_operator.Platform.{Platform}
use fluxgate_operator.Platform.World.{
  World, Event, MetricUpdate, measure, compliance_state, findings_total,
}
use fluxgate_operator.Analyzer.Compliance.{state_of_summary, compute_compliance_state}
use fluxgate_operator.Controller.Analysis.{
  connector_label, measure_findings, record_findings_metrics, emit_finding_events, announce,
}

-- The states that a critical or a high finding gives.
abbrev pub is_grave : String → Bool
is_grave state = state == "Critical" || state == "NonCompliant"

grave_of_tests :
    (c h m : Bool)
    → (c || h)
      ≡ is_grave (
          if c
          then "Critical"
          else if h
          then "NonCompliant"
          else if m
          then "Warning"
          else "Compliant")
grave_of_tests true h m = refl
grave_of_tests false true m = refl
grave_of_tests false false true = refl
grave_of_tests false false false = refl

grave-state_of_summary :
    (s : FindingSummary)
    → (ltb_ℤ (pos 0) s.critical || ltb_ℤ (pos 0) s.high) ≡ is_grave (state_of_summary s)
unfolding state_of_summary
grave-state_of_summary s =
    grave_of_tests (ltb_ℤ (pos 0) s.critical) (ltb_ℤ (pos 0) s.high) (ltb_ℤ (pos 0) s.medium)

-- What an event is about, and how it is classed.
abbrev pub notice_of : Event → String × String × String × String
notice_of e = (e.namespace, e.name, e.type, e.reason)

-- The events of a report in a state, oldest first.
abbrev pub notices :
    Bool → PipelineSecurityReport → String → List (String × String × String × String)
notices false r state = []
notices true r state =
    let changed : String × String × String × String =
      (r.meta.namespace, r.meta.name, "Normal", "ComplianceStateChanged") in
    if is_grave state
    then (r.meta.namespace, r.meta.name, "Warning", "PipelineFindingDetected") ∷ changed ∷ []
    else changed ∷ []

-- The metrics of a report: its gauge, and one for each finding.
abbrev pub gauges :
    PipelineSource → PipelineSecurityReport → String → List Finding → List MetricUpdate
gauges src r state fs =
    compliance_state r.meta.namespace r.meta.name (connector_label src.source_kind)
      (compliance_state_to_float state)
    ∷ map (λ f. findings_total r.meta.namespace r.meta.name f.rule f.severity) fs

map-append {ℓ κ} :
    {A : Type ℓ} {B : Type κ} (f : A → B) (xs ys : List A) → map f (xs ++ ys) ≡ map f xs ++ map f ys
map-append f [] ys = refl
map-append f (x ∷ xs) ys = ap (λ l. f x ∷ l) (map-append f xs ys)

map-push {ℓ κ} :
    {A : Type ℓ} {B : Type κ} (f : A → B) (xs : List A) (x : A)
    → map f (push xs x) ≡ push (map f xs) (f x)
map-push f xs x = map-append f xs (x ∷ [])

map-push-push {ℓ κ} :
    {A : Type ℓ} {B : Type κ} (f : A → B) (xs : List A) (x y : A)
    → map f (push (push xs x) y) ≡ map f xs ++ (f x ∷ f y ∷ [])
map-push-push f xs x y =
    map-push f (push xs x) y
    ∙ ap (λ l. push l (f y)) (map-push f xs x)
    ∙ append_assoc (map f xs) (f x ∷ []) (f y ∷ [])

module _ (P : Platform) where
  pub measure_findings-added :
      (ns name : String) (fs : List Finding) (w : World P)
      → measure_findings P ns name fs w
        ≡ record w { metrics = w.metrics ++ map (λ f. findings_total ns name f.rule f.severity) fs }
  unfolding measure_findings
  measure_findings-added ns name [] w =
      ap (λ ms. record w { metrics = ms }) (sym (append-nil w.metrics))
  measure_findings-added ns name (f ∷ fs) w =
      measure_findings-added ns name fs (measure P (findings_total ns name f.rule f.severity) w)
      ∙ ap (λ ms. record w { metrics = ms })
          (append_assoc w.metrics (findings_total ns name f.rule f.severity ∷ [])
            (map (λ g. findings_total ns name g.rule g.severity) fs))

  emit_finding_events-notices :
      (rec : Bool) (r : PipelineSecurityReport) (s : FindingSummary) (w : World P)
      → (map notice_of (emit_finding_events P rec r (state_of_summary s) s w).events
          ≡ map notice_of w.events ++ notices rec r (state_of_summary s))
        × ((emit_finding_events P rec r (state_of_summary s) s w).metrics ≡ w.metrics)
  unfolding emit_finding_events
  emit_finding_events-notices false r s w = (sym (append-nil (map notice_of w.events)), refl)
  emit_finding_events-notices true r s w =
      elim (Bool-cases (ltb_ℤ (pos 0) s.critical || ltb_ℤ (pos 0) s.high)) [
        | inl on ↦ rw (← grave-state_of_summary s, on) (map-push-push notice_of w.events _ _, refl)
        | inr off ↦ rw (← grave-state_of_summary s, off) (map-push notice_of w.events _, refl)
      ]

  -- After a report is stored: its gauge is set to the number of the state of the findings, and a gauge
  -- for each finding, in their order. With an event recorder, the last event tells of the state, and
  -- before it stands a warning exactly where the state is "Critical" or "NonCompliant"; without one
  -- there is no event.
  pub announce-notices :
      (rec : Bool) (src : PipelineSource) (fs : List Finding) (r : PipelineSecurityReport)
      (w : World P)
      → let state = (compute_compliance_state fs).0 in
        ((announce P rec src fs r w).metrics ≡ w.metrics ++ gauges src r state fs)
        × (map notice_of (announce P rec src fs r w).events
            ≡ map notice_of w.events ++ notices rec r state)
  unfolding announce record_findings_metrics compute_compliance_state
  announce-notices rec src fs r w =
      let (state, s) = compute_compliance_state fs in
      let (ns, name) : String × String = (r.meta.namespace, r.meta.name) in
      let gauge =
        compliance_state ns name (connector_label src.source_kind)
          (compliance_state_to_float state) in
      let w₁ = measure P gauge w in
      let counted = measure_findings-added ns name fs w₁ in
      let emitted = emit_finding_events-notices rec r s (measure_findings P ns name fs w₁) in
      (
        emitted.1
            ∙ ap (λ v. v.metrics) counted
            ∙ append_assoc w.metrics (gauge ∷ [])
                (map (λ f. findings_total ns name f.rule f.severity) fs),
        emitted.0 ∙ ap (λ v. map notice_of v.events ++ notices rec r state) counted,
      )

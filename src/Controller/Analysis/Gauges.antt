-- ===== src/Controller/Analysis/Gauges.antt =====
-- What a scrape shows of the gauges of a report after `recordFindingsMetrics`.
use fluxgate_operator.Prelude.{
  Bool, true, false, ◌&&◌, ◌||◌, List, [], ◌∷◌, any, Option, some, String, ◌==◌, eq_refl, ℤ, pos,
  ltb_ℤ, if◌then◌else◌, ◌≡◌, refl, ◌∙◌, ap, Bool-cases, inl, inr,
}
use fluxgate_operator.Api.{Finding, FindingSummary, PipelineSecurityReport}
use fluxgate_operator.Metrics.{compliance_state_to_float}
use fluxgate_operator.Metrics.Collectors.{
  findings_total_collector, compliance_state_collector, call_of, after, IsScrape,
}
use fluxgate_operator.Connector.Types.{PipelineSource}
use fluxgate_operator.Platform.{Platform}
use fluxgate_operator.Platform.World.{
  World, MetricUpdate, measure, compliance_state, findings_total,
}
use fluxgate_operator.Analyzer.Compliance.{compute_compliance_state}
use fluxgate_operator.Controller.Analysis.{
  connector_label, measure_findings, record_findings_metrics, emit_finding_events, announce,
}

-- A finding of the rule and the severity.
abbrev pub is_of : String → String → Finding → Bool
is_of rule severity f = f.rule == rule && f.severity == severity

or-else {ℓ} :
    {A : Type ℓ} (a b : Bool) (x y : A)
    → (if b then x else if a then x else y) ≡ (if a || b then x else y)
or-else true true x y = refl
or-else true false x y = refl
or-else false true x y = refl
or-else false false x y = refl

and-unit : (b : Bool) → (b && true) ≡ b
and-unit true = refl
and-unit false = refl

module _ (P : Platform) (shows : List MetricUpdate → String → List String → Option ℤ)
    (scrape : IsScrape shows) (ns name : String) where
  -- The gauge of a rule and a severity.
  abbrev findings_gauge : World P → String → String → Option ℤ
  findings_gauge w rule severity =
      shows w.metrics findings_total_collector.name (ns ∷ name ∷ rule ∷ severity ∷ [])

  after-finding :
      (f : Finding) (rule severity : String) (old : Option ℤ)
      → after
          (call_of (findings_total ns name f.rule f.severity))
          findings_total_collector.name
          (ns ∷ name ∷ rule ∷ severity ∷ [])
          old
        ≡ (if is_of rule severity f then some (pos 1) else old)
  after-finding f rule severity old =
      rw (eq_refl ns, eq_refl name, and-unit (f.severity == severity)) refl

  measure_findings-findings_gauge :
      (fs : List Finding) (w : World P) (rule severity : String)
      → findings_gauge (measure_findings P ns name fs w) rule severity
        ≡ (if any (is_of rule severity) fs then some (pos 1) else findings_gauge w rule severity)
  unfolding measure_findings
  measure_findings-findings_gauge [] w rule severity = refl
  measure_findings-findings_gauge (f ∷ fs) w rule severity =
      let m = findings_total ns name f.rule f.severity in
      let key = ns ∷ name ∷ rule ∷ severity ∷ [] in
      measure_findings-findings_gauge fs (measure P m w) rule severity
      ∙ ap (λ x. if any (is_of rule severity) fs then some (pos 1) else x)
          (scrape.shows-push w.metrics m findings_total_collector.name key
            ∙ after-finding f rule severity (findings_gauge w rule severity))
      ∙ or-else (is_of rule severity f) (any (is_of rule severity) fs) (some (pos 1))
          (findings_gauge w rule severity)

  measure_findings-compliance :
      (fs : List Finding) (w : World P) (values : List String)
      → shows (measure_findings P ns name fs w).metrics compliance_state_collector.name values
        ≡ shows w.metrics compliance_state_collector.name values
  unfolding measure_findings
  measure_findings-compliance [] w values = refl
  measure_findings-compliance (f ∷ fs) w values =
      let m = findings_total ns name f.rule f.severity in
      measure_findings-compliance fs (measure P m w) values
      ∙ scrape.shows-push w.metrics m compliance_state_collector.name values

emit_finding_events-metrics :
    (P : Platform) (rec : Bool) (r : PipelineSecurityReport) (state : String) (s : FindingSummary)
    (w : World P)
    → (emit_finding_events P rec r state s w).metrics ≡ w.metrics
unfolding emit_finding_events
emit_finding_events-metrics P false r state s w = refl
emit_finding_events-metrics P true r state s w =
    elim (Bool-cases (ltb_ℤ (pos 0) s.critical || ltb_ℤ (pos 0) s.high)) [
      | inl grave ↦ rw grave refl
      | inr mild ↦ rw mild refl
    ]

-- What a scrape shows once a report was stored and announced, whatever was measured before: the gauge of
-- the compliance state has the value of the state of the findings, and the gauge of a rule and a
-- severity has 1 where at least one finding is of them, however many are, and keeps its old value
-- where none is any more.
pub announce-shows :
    (P : Platform) (shows : List MetricUpdate → String → List String → Option ℤ)
    → IsScrape shows
    → (rec : Bool) (src : PipelineSource) (fs : List Finding) (r : PipelineSecurityReport)
      (w : World P) (rule severity : String)
    → let w' = announce P rec src fs r w in
      let key = r.meta.namespace ∷ r.meta.name ∷ rule ∷ severity ∷ [] in
      (shows w'.metrics compliance_state_collector.name
          (r.meta.namespace ∷ r.meta.name ∷ connector_label src.source_kind ∷ [])
        ≡ some (compliance_state_to_float (compute_compliance_state fs).0))
      × (shows w'.metrics findings_total_collector.name key ≡ (
          if any (is_of rule severity) fs
          then some (pos 1)
          else shows w.metrics findings_total_collector.name key))
unfolding announce record_findings_metrics
announce-shows P shows scrape rec src fs r w rule severity =
    let ns = r.meta.namespace in
    let name = r.meta.name in
    let (state, summary) = compute_compliance_state fs in
    let m =
      compliance_state ns name (connector_label src.source_kind)
        (compliance_state_to_float state) in
    let key = ns ∷ name ∷ rule ∷ severity ∷ [] in
    let own = ns ∷ name ∷ connector_label src.source_kind ∷ [] in
    let silent =
      emit_finding_events-metrics P rec r state summary
        (record_findings_metrics P r fs state src w) in
    (
      ap (λ ms. shows ms compliance_state_collector.name own) silent
          ∙ measure_findings-compliance P shows scrape ns name fs (measure P m w) own
          ∙ scrape.shows-push w.metrics m compliance_state_collector.name own
          ∙ rw (eq_refl ns, eq_refl name, eq_refl (connector_label src.source_kind)) refl,
      ap (λ ms. shows ms findings_total_collector.name key) silent
          ∙ measure_findings-findings_gauge P shows scrape ns name fs (measure P m w) rule severity
          ∙ ap (λ x. if any (is_of rule severity) fs then some (pos 1) else x)
              (scrape.shows-push w.metrics m findings_total_collector.name key),
    )

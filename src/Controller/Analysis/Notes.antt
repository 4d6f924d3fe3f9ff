-- ===== src/Controller/Analysis/Notes.antt =====
-- What a round of `AnalysisController.Reconcile` leaves alone: the registry, and the events before it.
use mathlib.Core.List.{append_assoc, append-nil}
use fluxgate_operator.Prelude.{
  Bool, true, false, List, [], ◌∷◌, ◌++◌, map, Result, Result-cases, Option-cases, ok, err,
  not_found, failure, String, ◌≡◌, inl, inr, refl, sym, ap, ◌∙◌, arith, time_sub,
}
use fluxgate_operator.Api.{Finding, FindingSummary, PipelineSecurityReport, WorkloadRef}
use fluxgate_operator.Connector.Types.{PipelineConnector, PipelineSource}
use fluxgate_operator.Platform.{Platform}
use fluxgate_operator.Platform.World.{World, measure, evaluation_duration}
use fluxgate_operator.Analyzer.Compliance.{compute_compliance_state}
use fluxgate_operator.Analyzer.GitHub.{fetch_workflow_files}
use fluxgate_operator.Analyzer.GitHub.Laws.{fetch_workflow_files-IsUntouched}
use fluxgate_operator.Analyzer.Analyze.{Analyzer, cached, fetch_and_scan, analyze}
use fluxgate_operator.Controller.Analysis.{
  namespace_of, correlated, emit_finding_events, record_findings_metrics, announce, finish,
  store_report, analyze_source, analyze_all,
}
use fluxgate_operator.Controller.Analysis.Laws.{
  report_key, store_report-new, store_report-old, store_report-failed,
}
use fluxgate_operator.Controller.Analysis.Notices.{
  notice_of, notices, measure_findings-added, announce-notices,
}

abbrev pub Notice : Type 0
Notice = String × String × String × String

module _ (P : Platform) where
  -- The registry is as it was, and events are added.
  abbrev pub Notes : World P → World P → Type 0
  Notes w w' =
      (w'.registry ≡ w.registry)
      × ((ns : List Notice) × (map notice_of w'.events ≡ map notice_of w.events ++ ns))

  pub Notes-of_same :
      (w w' : World P) → w'.registry ≡ w.registry → w'.events ≡ w.events → Notes w w'
  Notes-of_same w w' r e =
      (r, ([], ap (λ es. map notice_of es) e ∙ sym (append-nil (map notice_of w.events))))

  pub Notes-trans : (u v w : World P) → Notes u v → Notes v w → Notes u w
  Notes-trans u v w (r, (ms, e)) (r', (ns, e')) =
      (r' ∙ r, (ms ++ ns, e' ∙ ap (λ es. es ++ ns) e ∙ append_assoc (map notice_of u.events) ms ns))

  fetch_and_scan-Notes :
      (a : Analyzer) (src : PipelineSource) (w : World P) → Notes w (fetch_and_scan P a src w).1
  unfolding fetch_and_scan
  fetch_and_scan-Notes a src w =
      let run = fetch_workflow_files P a.github src.owner src.repo src.branch w in
      let (registry, cache, events) =
        fetch_workflow_files-IsUntouched P a.github src.owner src.repo src.branch w in
      elim (Result-cases run.0) [
        | inl (e, h) ↦ rw (h, fetch_and_scan) (Notes-of_same w run.1 registry events)
        | inr (files, h) ↦ rw (h, fetch_and_scan) (Notes-of_same w run.1 registry events)
      ]

  pub analyze-Notes :
      (a : Analyzer) (src : PipelineSource) (w : World P) → Notes w (analyze P a src w).1
  unfolding analyze
  analyze-Notes a src w = elim (Option-cases (cached P a src w)) [
    | inl h ↦ rw (h, analyze) (fetch_and_scan-Notes a src w)
    | inr (fs, h) ↦ rw (h, analyze) (Notes-of_same w w refl refl)
  ]

  emit_finding_events-registry :
      (rec : Bool) (r : PipelineSecurityReport) (state : String) (s : FindingSummary) (w : World P)
      → (emit_finding_events P rec r state s w).registry ≡ w.registry
  unfolding emit_finding_events
  emit_finding_events-registry false r state s w = refl
  emit_finding_events-registry true r state s w = ground arith

  module _ (rec : Bool) (src : PipelineSource) (fs : List Finding) where
    announce-registry :
        (r : PipelineSecurityReport) (w : World P)
        → (announce P rec src fs r w).registry ≡ w.registry
    unfolding announce record_findings_metrics
    announce-registry r w =
        emit_finding_events-registry rec r _ _ _
        ∙ ap (λ v. v.registry) (measure_findings-added P r.meta.namespace r.meta.name fs _)

    announce-Notes :
        (r : PipelineSecurityReport) (w : World P) → Notes w (announce P rec src fs r w)
    announce-Notes r w = (
      announce-registry r w,
      (notices rec r (compute_compliance_state fs).0, (announce-notices P rec src fs r w).1),
    )

    finish-Notes :
        (what : String) (r : PipelineSecurityReport) (x : Result (Unit {0}) × World P)
        → Notes x.1 (finish P rec src fs what r x).1
    unfolding finish
    finish-Notes what r (err e, w) = Notes-of_same w w refl refl
    finish-Notes what r (ok done, w) = announce-Notes r w

    store_report-Notes :
        (wl : List WorkloadRef) (w : World P) → Notes w (store_report P rec src fs wl w).1
    store_report-Notes wl w = elim (Result-cases (P.get_report w.api (report_key P rec src fs))) [
      | inl (not_found m, h) ↦
          rw (store_report-new P rec src fs wl w m h) (finish-Notes "creating" _ _)
      | inl (failure m, h) ↦
          rw (store_report-failed P rec src fs wl w m h) (Notes-of_same w w refl refl)
      | inr (old, h) ↦ rw (store_report-old P rec src fs wl w old h) (finish-Notes "updating" _ _)
    ]

  module _ (cs : List (PipelineConnector P.State)) (a : Analyzer) where
    pub analyze_source-Notes :
        (rec : Bool) (src : PipelineSource) (w : World P)
        → Notes w (analyze_source P cs rec a src w).1
    unfolding analyze_source
    analyze_source-Notes rec src w =
        let run = analyze P a src w in
        let v =
          measure P
            (evaluation_duration (namespace_of src) src.name
              (time_sub (P.now run.1.api) (P.now w.api)))
            run.1 in
        elim (Result-cases run.0) [
          | inl (e, h) ↦ rw (h, analyze_source) (analyze-Notes a src w)
          | inr (fs, h) ↦
              let wl = correlated P cs src run.1.api in
              rw (h, analyze_source)
                (Notes-trans w v (store_report P rec src fs wl v).1 (analyze-Notes a src w)
                  (store_report-Notes rec src fs wl v))
        ]

    pub analyze_all-Notes :
        (rec : Bool) (srcs : List PipelineSource) (w : World P)
        → Notes w (analyze_all P cs rec a srcs w)
    unfolding analyze_all
    analyze_all-Notes rec [] w = Notes-of_same w w refl refl
    analyze_all-Notes rec (src ∷ srcs) w =
        let w' = (analyze_source P cs rec a src w).1 in
        Notes-trans w w' (analyze_all P cs rec a srcs w') (analyze_source-Notes rec src w)
          (analyze_all-Notes rec srcs w')

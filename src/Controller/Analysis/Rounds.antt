-- ===== src/Controller/Analysis/Rounds.antt =====
-- A whole round of `AnalysisController.Reconcile` reaches every source.
use mathlib.Core.List.{append_assoc}
use fluxgate_operator.Prelude.{
  pos, ◌*◌, Bool, true, false, List, [], ◌∷◌, ◌++◌, map, IsIn, IsIn-append_left, IsIn-append_right,
  Error, Result, Result-cases, Bool-cases, ok, err, not_found, failure, String, ◌≡◌, ◌⊎◌, inl, inr,
  refl, ap, ◌∙◌, subst, time_sub,
}
use fluxgate_operator.Api.{Finding, PipelineSecurityReport, WorkloadRef}
use fluxgate_operator.Connector.Types.{PipelineConnector, PipelineSource}
use fluxgate_operator.Platform.{Platform, NamespacedName, requeue, minute}
use fluxgate_operator.Platform.World.{World, write, measure, evaluation_duration}
use fluxgate_operator.Analyzer.Compliance.{compute_compliance_state}
use fluxgate_operator.Analyzer.Analyze.{Analyzer, analyze}
use fluxgate_operator.Controller.Analysis.{
  namespace_of, report_name, correlated, updated_report, finish, store_report, analyze_source,
  analyze_all, reconcile,
}
use fluxgate_operator.Controller.Policy.Select.{is_empty}
use fluxgate_operator.Controller.Discovery.{list}
use fluxgate_operator.Controller.Analysis.Laws.{report_key, store_report-new, store_report-old}
use fluxgate_operator.Controller.Analysis.Notices.{is_grave, notice_of, notices, announce-notices}
use fluxgate_operator.Controller.Analysis.Notes.{
  Notice, Notes, analyze-Notes, analyze_source-Notes, analyze_all-Notes,
}

-- The event that tells of the state of a source's report.
abbrev pub evaluated : Platform → PipelineSource → Notice
evaluated P src = (namespace_of src, report_name P src, "Normal", "ComplianceStateChanged")

-- The API server returns the report that was asked for.
abbrev pub NamesReports : Platform → Type 0
NamesReports P =
    (s : P.State) (nn : NamespacedName) (r : PipelineSecurityReport)
    → P.get_report s nn ≡ ok r
    → (r.meta.name ≡ nn.name) × (r.meta.namespace ≡ nn.namespace)

module _ (P : Platform) where
  -- Between two worlds events are added, the notice among them.
  abbrev pub Adds : Notice → World P → World P → Type 0
  Adds n w w' =
      (ns : List Notice) × (map notice_of w'.events ≡ map notice_of w.events ++ ns) × IsIn n ns

  module _ (src : PipelineSource) (fs : List Finding) where
    IsIn-notices :
        (r : PipelineSecurityReport) (state : String)
        → IsIn
            (r.meta.namespace, r.meta.name, "Normal", "ComplianceStateChanged")
            (notices true r state)
    IsIn-notices r state = elim (Bool-cases (is_grave state)) [
      | inl on ↦ rw on (inr (inl refl))
      | inr off ↦ rw off (inl refl)
    ]

    finish-Adds :
        (what : String) (r : PipelineSecurityReport) (x : Result (Unit {0}) × World P)
        → (finish P true src fs what r x).0 ≡ ok tt
        → Adds
            (r.meta.namespace, r.meta.name, "Normal", "ComplianceStateChanged")
            x.1
            (finish P true src fs what r x).1
    unfolding finish
    finish-Adds what r (err e, w) h = cc
    finish-Adds what r (ok done, w) h =
        let state = (compute_compliance_state fs).0 in
        (notices true r state, (announce-notices P true src fs r w).1, IsIn-notices r state)

    store_report-Adds :
        (wl : List WorkloadRef) (w : World P)
        → NamesReports P
        → (store_report P true src fs wl w).0 ≡ ok tt
        → Adds (evaluated P src) w (store_report P true src fs wl w).1
    unfolding store_report
    store_report-Adds wl w names fine =
        elim (Result-cases (P.get_report w.api (report_key P true src fs))) [
          | inl (not_found m, h) ↦
              let same = store_report-new P true src fs wl w m h in
              rw same (finish-Adds "creating" _ _ (rw same at fine))
          | inl (failure m, h) ↦ cc (rw (h, store_report) at fine)
          | inr (old, h) ↦
              let same = store_report-old P true src fs wl w old h in
              let (name, ns) = names w.api (report_key P true src fs) old h in
              let r = updated_report P old src (P.now w.api) wl fs in
              let x = write P (λ s. P.update_report_status s r) w in
              let after = (finish P true src fs "updating" r x).1 in
              let noted = finish-Adds "updating" r x (rw same at fine) in
              let notice : (old.meta.namespace, old.meta.name, "Normal", "ComplianceStateChanged")
                  ≡ evaluated P src =
                rw (name, ns) refl in
              rw same (subst (λ n. Adds n w after) notice noted)
        ]

  Adds-later : (n : Notice) (u v w : World P) → Notes P u v → Adds n v w → Adds n u w
  Adds-later n u v w (r, (ms, e)) (ns, e', m) = (
    ms ++ ns,
    e' ∙ ap (λ es. es ++ ns) e ∙ append_assoc (map notice_of u.events) ms ns,
    IsIn-append_right n ms ns m,
  )

  module _ (cs : List (PipelineConnector P.State)) (a : Analyzer) where
    analyze_source-Adds :
        (src : PipelineSource) (w : World P)
        → NamesReports P
        → (analyze_source P cs true a src w).0 ≡ ok tt
        → Adds (evaluated P src) w (analyze_source P cs true a src w).1
    unfolding analyze_source
    analyze_source-Adds src w names fine =
        let run = analyze P a src w in
        let v : World P =
          measure P
            (evaluation_duration (namespace_of src) src.name
              (time_sub (P.now run.1.api) (P.now w.api)))
            run.1 in
        elim (Result-cases run.0) [
          | inl (e, h) ↦ cc (rw (h, analyze_source) at fine)
          | inr (fs, h) ↦
              let wl = correlated P cs src run.1.api in
              rw (h, analyze_source)
                (Adds-later (evaluated P src) w v (store_report P true src fs wl v).1
                  (analyze-Notes P a src w)
                  (store_report-Adds src fs wl v names (rw (h, analyze_source) at fine)))
        ]

    -- A round over the sources analyses one of them: `v` is the world after those before it, its own analysis
    -- starts there, and the round goes on from the world that this analysis leaves with those after it.
    abbrev pub Reaches : List PipelineSource → PipelineSource → World P → World P → World P → Type 0
    Reaches srcs src w v w' =
        (pre post : List PipelineSource) × (srcs ≡ pre ++ src ∷ post)
        × (v ≡ analyze_all P cs true a pre w)
        × (w' ≡ analyze_all P cs true a post (analyze_source P cs true a src v).1)

    -- In a round from one world to another a source was analysed: that failed, or that very analysis added
    -- the event, which the later world still has after all events of the earlier one.
    abbrev pub IsEvaluated : List PipelineSource → PipelineSource → World P → World P → Type 0
    IsEvaluated srcs src w w' =
        (v : World P) × Reaches srcs src w v w'
        × (((e : Error) × ((analyze_source P cs true a src v).0 ≡ err e))
            ⊎ (Adds (evaluated P src) v (analyze_source P cs true a src v).1
                × Adds (evaluated P src) w w'))

    Adds-sooner : (n : Notice) (u v w : World P) → Adds n u v → Notes P v w → Adds n u w
    Adds-sooner n u v w (ns, e, m) (r, (ms, e')) = (
      ns ++ ms,
      e' ∙ ap (λ es. es ++ ms) e ∙ append_assoc (map notice_of u.events) ns ms,
      IsIn-append_left n ns ms m,
    )

    analyze_all-IsEvaluated :
        (src : PipelineSource) (srcs : List PipelineSource) (w : World P)
        → NamesReports P
        → IsIn src srcs
        → IsEvaluated srcs src w (analyze_all P cs true a srcs w)
    unfolding analyze_all
    analyze_all-IsEvaluated src [] w names m = elim m [ ]
    analyze_all-IsEvaluated src (x ∷ srcs) w names (inl e) =
        let w' = (analyze_source P cs true a x w).1 in
        subst (λ y. IsEvaluated (x ∷ srcs) y w (analyze_all P cs true a srcs w')) e
          (
            w,
            ([], srcs, refl, refl, refl),
            elim (Result-cases (analyze_source P cs true a x w).0) [
              | inl failed ↦ inl failed
              | inr (done, fine) ↦
                  let own = analyze_source-Adds x w names fine in
                  inr (
                    own,
                    Adds-sooner (evaluated P x) w w' (analyze_all P cs true a srcs w') own
                        (analyze_all-Notes P cs a true srcs w'),
                  )
            ],
          )
    analyze_all-IsEvaluated src (x ∷ srcs) w names (inr m) =
        let w' = (analyze_source P cs true a x w).1 in
        let (v, (pre, post, split, moment, end), outcome) =
          analyze_all-IsEvaluated src srcs w' names m in
        (
          v,
          (x ∷ pre, post, ap (λ l. x ∷ l) split, moment, end),
          elim outcome [
            | inl failed ↦ inl failed
            | inr (own, round) ↦ inr (
              own,
              Adds-later (evaluated P src) w w' (analyze_all P cs true a srcs w')
                  (analyze_source-Notes P cs a true x w) round,
            )
          ],
        )

    is_empty-IsIn :
        (src : PipelineSource) (srcs : List PipelineSource) → IsIn src srcs → is_empty srcs ≡ false
    is_empty-IsIn src [] m = elim m [ ]
    is_empty-IsIn src (x ∷ srcs) m = refl

    module _ (order : List PipelineSource → List PipelineSource) (nn : NamespacedName) where
      -- A round with a recorder analyses every source of the registry, in whatever order it goes through them
      -- and whichever of the others fail: from the world that the sources before it leave, the source is
      -- analysed, and from what that leaves the round goes on with those after it. Either this analysis fails
      -- with an error, or it adds an event that tells of the state of the source's report, one that was not
      -- there before the round. The next round is in five minutes.
      pub reconcile-IsEvaluated :
          (src : PipelineSource) (w : World P)
          → NamesReports P
          → IsIn src (order (list w.registry))
          → ((reconcile P cs true a order nn w).0 ≡ ok (requeue (pos (5 * minute))))
            × IsEvaluated (order (list w.registry)) src w (reconcile P cs true a order nn w).1
      unfolding reconcile
      reconcile-IsEvaluated src w names m =
          let srcs = order (list w.registry) in
          rw (is_empty-IsIn src srcs m) (refl, analyze_all-IsEvaluated src srcs w names m)

      -- A round adds no source and removes none.
      pub reconcile-registry :
          (rec : Bool) (w : World P) → (reconcile P cs rec a order nn w).1.registry ≡ w.registry
      unfolding reconcile
      reconcile-registry rec w =
          let srcs = order (list w.registry) in
          elim (Bool-cases (is_empty srcs)) [
            | inl e ↦ rw e refl
            | inr e ↦ rw e (analyze_all-Notes P cs a rec srcs w).0
          ]

-- ===== src/Controller/Analysis/Laws.antt =====
-- What the analysis controller writes.
use text.Mathlib.TextLemmas.{append_assoc, append-nil}
use fluxgate_operator.Prelude.{
  Bool, true, false, List, [], ◌∷◌, Result, Result-cases, ok, err, not_found, failure, String, ◌<>◌,
  concat, ◌≡◌, ◌⊎◌, ◌∙◌, refl, ap, arith, inl, inr, ℤ, text_at, text_at-insert_self,
  text_at-insert_ne,
}
use fluxgate_operator.Api.{Finding, FindingSummary, PipelineSecurityReport, WorkloadRef}
use fluxgate_operator.Connector.Types.{PipelineSource}
use fluxgate_operator.Platform.{Platform, NamespacedName, no_requeue}
use fluxgate_operator.Platform.World.{World, write}
use fluxgate_operator.Controller.Report.Laws.{
  at_time, IsConsistent, KeepsStatus, reconcile-consistent,
}
use fluxgate_operator.Controller.Report.{reconcile}
use fluxgate_operator.Controller.Policy.Select.{label_source_kind, label_source_name}
use fluxgate_operator.Controller.Analysis.{
  namespace_of, report_name, new_report, updated_report, measure_findings, record_findings_metrics,
  emit_finding_events, announce, finish, store_report,
}

-- The name of a report joins the owner and the repository by a dash, which either of them may contain, so
-- that "x" with "y-z" gives the name that "x-y" with "z" gives.
pub report_name-collision :
    (P : Platform) (a b : PipelineSource) (x y z : String)
    → a.owner ≡ x
    → a.repo ≡ y <> ("-" <> z)
    → b.owner ≡ x <> ("-" <> y)
    → b.repo ≡ z
    → report_name P a ≡ report_name P b
unfolding concat
report_name-collision P a b x y z p q r s = rw (
  p,
  q,
  r,
  s,
  append-nil z,
  append-nil (y <> ("-" <> z)),
  append_assoc x ("-" <> y) ("-" <> z),
  append_assoc "-" y ("-" <> z),
)

module _ (P : Platform) where
  measure_findings-api :
      (ns name : String) (fs : List Finding) (w : World P)
      → (measure_findings P ns name fs w).api ≡ w.api
  unfolding measure_findings
  measure_findings-api ns name [] w = refl
  measure_findings-api ns name (f ∷ fs) w = measure_findings-api ns name fs _

  emit_finding_events-api :
      (rec : Bool) (r : PipelineSecurityReport) (state : String) (s : FindingSummary) (w : World P)
      → (emit_finding_events P rec r state s w).api ≡ w.api
  unfolding emit_finding_events
  emit_finding_events-api false r state s w = refl
  emit_finding_events-api true r state s w = ground arith

  module _ (rec : Bool) (src : PipelineSource) (fs : List Finding) where
    announce-api :
        (r : PipelineSecurityReport) (w : World P) → (announce P rec src fs r w).api ≡ w.api
    unfolding announce record_findings_metrics
    announce-api r w = emit_finding_events-api rec r _ _ _ ∙ measure_findings-api _ _ fs _

    -- The world after a write that was announced has the API state of the write.
    finish-api :
        (what : String) (r : PipelineSecurityReport) (x : Result (Unit {0}) × World P)
        → (finish P rec src fs what r x).1.api ≡ x.1.api
    unfolding finish
    finish-api what r (err e, w) = refl
    finish-api what r (ok done, w) = announce-api r w

    ok_of_finish :
        (what : String) (r : PipelineSecurityReport) (x : Result (Unit {0}) × World P)
        → (finish P rec src fs what r x).0 ≡ ok tt
        → x.0 ≡ ok tt
    unfolding finish
    ok_of_finish what r (err e, w) h = cc
    ok_of_finish what r (ok done, w) h = refl

    -- Where the report's name and namespace lie.
    abbrev pub report_key : NamespacedName
    report_key = record { name = report_name P src; namespace = namespace_of src }

    module _ (wl : List WorkloadRef) (w : World P) where
      pub store_report-new :
          (m : String)
          → P.get_report w.api report_key ≡ err (not_found m)
          → store_report P rec src fs wl w ≡ (
              let fresh = new_report P src (P.now w.api) wl fs in
              finish P rec src fs "creating" fresh (write P (λ s. P.create_report s fresh) w))
      unfolding store_report
      store_report-new m h = rw (h, store_report)

      pub store_report-old :
          (old : PipelineSecurityReport)
          → P.get_report w.api report_key ≡ ok old
          → store_report P rec src fs wl w ≡ (
              let r = updated_report P old src (P.now w.api) wl fs in
              finish P rec src fs "updating" r (write P (λ s. P.update_report_status s r) w))
      unfolding store_report
      store_report-old old h = rw (h, store_report)

      pub store_report-failed :
          (m : String)
          → P.get_report w.api report_key ≡ err (failure m)
          → (store_report P rec src fs wl w).1 ≡ w
      unfolding store_report
      store_report-failed m h = rw (h, store_report)

      -- The one write, by what the read of the report gives. A report that is not there is created, under the
      -- name and in the namespace in which it was looked for, with the labels by which policies select it; one that is there keeps its name, labels and annotations
      -- and gets a new status; either way the report that is written has the findings, and the state and
      -- the counts of them. Any other error of the read writes nothing and changes nothing.
      pub store_report-writes :
          ((m : String) × (r : PipelineSecurityReport) × (P.get_report w.api report_key
              ≡ err (not_found m))
            × ((store_report P rec src fs wl w).1.api ≡ (P.create_report w.api r).1)
            × (r.meta.name ≡ report_name P src)
            × (r.meta.namespace ≡ namespace_of src)
            × (text_at label_source_name r.meta.labels ≡ src.source_name)
            × (text_at label_source_kind r.meta.labels ≡ src.source_kind)
            × (r.status.findings ≡ fs)
            × IsConsistent r)
          ⊎ ((old r : PipelineSecurityReport) × (P.get_report w.api report_key ≡ ok old)
              × ((store_report P rec src fs wl w).1.api ≡ (P.update_report_status w.api r).1)
              × (r.meta ≡ old.meta)
              × (r.status.findings ≡ fs)
              × IsConsistent r)
          ⊎ ((m : String) × (P.get_report w.api report_key ≡ err (failure m))
              × ((store_report P rec src fs wl w).1 ≡ w))
      store_report-writes = elim (Result-cases (P.get_report w.api report_key)) [
        | inl (not_found m, missing) ↦ inl (
          m,
          new_report P src (P.now w.api) wl fs,
          missing,
          ap (λ x. x.1.api) (store_report-new m missing) ∙ finish-api "creating" _ _,
          refl,
          refl,
          text_at-insert_self label_source_name src.source_name _,
          text_at-insert_ne label_source_name label_source_kind src.source_name _ refl
              ∙ text_at-insert_self label_source_kind src.source_kind [],
          refl,
          (refl, refl),
        )
        | inl (failure m, failed) ↦ inr (inr (m, failed, store_report-failed m failed))
        | inr (old, found) ↦ inr (
            inl (
              old,
              updated_report P old src (P.now w.api) wl fs,
              found,
              ap (λ x. x.1.api) (store_report-old old found) ∙ finish-api "updating" _ _,
              refl,
              refl,
              (refl, refl),
            ))
      ]

      -- An update that returned no error is what a later read gives.
      pub store_report-kept :
          (old : PipelineSecurityReport)
          → KeepsStatus P
          → P.get_report w.api report_key ≡ ok old
          → (store_report P rec src fs wl w).0 ≡ ok tt
          → (t : ℤ) × (P.get_report (store_report P rec src fs wl w).1.api report_key
              ≡ ok (at_time t (updated_report P old src (P.now w.api) wl fs)))
      store_report-kept old keeps found fine =
          let r = updated_report P old src (P.now w.api) wl fs in
          let x = write P (λ s. P.update_report_status s r) w in
          let same = store_report-old old found in
          let written : x.0 ≡ ok tt = ok_of_finish "updating" r x (rw same at fine) in
          let (t, kept) = keeps w.api report_key old r found refl written in
          (t, rw (ap (λ x. x.1.api) same ∙ finish-api "updating" r x) kept)

      -- Where the API server keeps the statuses that it accepts, but for the precision of instants: once the analysis controller has updated
      -- a report without an error, the report controller finds the new findings, and nothing to write.
      pub store_report-settled :
          (old : PipelineSecurityReport)
          → KeepsStatus P
          → P.get_report w.api report_key ≡ ok old
          → (store_report P rec src fs wl w).0 ≡ ok tt
          → let s = (store_report P rec src fs wl w).1.api in
            ((r : PipelineSecurityReport) × (P.get_report s report_key ≡ ok r)
              × (r.status.findings ≡ fs))
            × (reconcile P report_key s ≡ (ok no_requeue, s))
      store_report-settled old keeps found fine =
          let r = updated_report P old src (P.now w.api) wl fs in
          let (t, kept) = store_report-kept old keeps found fine in
          (
            (at_time t r, kept, refl),
            reconcile-consistent P report_key _ (at_time t r) kept (refl, refl),
          )

-- ===== src/Controller/Analysis/Collision.antt =====
-- Two sources that share a report: the analysis of one overwrites what the analysis of the other found.
use fluxgate_operator.Prelude.{Bool, List, ok, String, ◌<>◌, ◌≡◌, refl, sym, ap, ◌∙◌}
use fluxgate_operator.Api.{Finding, PipelineSecurityReport, WorkloadRef}
use fluxgate_operator.Connector.Types.{PipelineSource}
use fluxgate_operator.Platform.{Platform}
use fluxgate_operator.Platform.World.{World}
use fluxgate_operator.Controller.Report.Laws.{at_time, IsConsistent, KeepsStatus}
use fluxgate_operator.Controller.Analysis.{namespace_of, updated_report, store_report}
use fluxgate_operator.Controller.Analysis.Laws.{
  report_key, report_name-collision, store_report-kept,
}

-- The owners and the repositories differ in the place of a dash, and the namespaces are the same.
abbrev pub Collide : String → String → String → PipelineSource → PipelineSource → Type 0
Collide x y z a b =
    (a.owner ≡ x)
    × (a.repo ≡ y <> ("-" <> z))
    × (b.owner ≡ x <> ("-" <> y))
    × (b.repo ≡ z)
    × (namespace_of a ≡ namespace_of b)

module _ (P : Platform) (rec : Bool) (a b : PipelineSource) (fs gs : List Finding) where
  report_key-collision :
      (x y z : String) → Collide x y z a b → report_key P rec a fs ≡ report_key P rec b gs
  report_key-collision x y z (p, q, r, s, ns) =
      λ i. record { name = report_name-collision P a b x y z p q r s i; namespace = ns i }

  -- Two sources of different repositories in one namespace share a report where the owner "x" and the
  -- repository "y-z" of the one and "x-y" and "z" of the other make one name. Where the API server keeps
  -- the statuses that it accepts, but for the precision of instants, and the report is there: once both
  -- are stored with no error, the report that is read for the first source has the findings, the
  -- repository and the state of the second, under the metadata that it had before.
  pub store_report-overwrites :
      (x y z : String) (wl vl : List WorkloadRef) (w : World P) (old : PipelineSecurityReport)
      → Collide x y z a b
      → KeepsStatus P
      → P.get_report w.api (report_key P rec a fs) ≡ ok old
      → (store_report P rec a fs wl w).0 ≡ ok tt
      → (store_report P rec b gs vl (store_report P rec a fs wl w).1).0 ≡ ok tt
      → let w' = (store_report P rec b gs vl (store_report P rec a fs wl w).1).1 in
        (r : PipelineSecurityReport) × (P.get_report w'.api (report_key P rec a fs) ≡ ok r)
        × (r.meta ≡ old.meta)
        × (r.status.findings ≡ gs)
        × (r.status.source.repository ≡ b.repository)
        × IsConsistent r
  store_report-overwrites x y z wl vl w old collide keeps found fine fine' =
      let key = report_key-collision x y z collide in
      let v = (store_report P rec a fs wl w).1 in
      let w' = (store_report P rec b gs vl v).1 in
      let (t, kept) = store_report-kept P rec a fs wl w old keeps found fine in
      let mid = at_time t (updated_report P old a (P.now w.api) wl fs) in
      let (u, last) =
        store_report-kept P rec b gs vl v mid keeps (ap (P.get_report v.api) (sym key) ∙ kept)
          fine' in
      let r = at_time u (updated_report P mid b (P.now v.api) vl gs) in
      (r, ap (P.get_report w'.api) key ∙ last, refl, refl, refl, (refl, refl))

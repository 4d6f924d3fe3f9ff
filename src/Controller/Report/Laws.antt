-- ===== src/Controller/Report/Laws.antt =====
-- What `ReportController.Reconcile` leaves behind.
use fluxgate_operator.Prelude.{
  true, false, ℤ, ap, Result, Error, ok, err, texts, eq_refl, ◌>>=◌, ◌≡◌, ◌∙◌, refl, ◌⊎◌, arith,
  eqb_ℤ-eq, eqb_ℤ_refl, ignore_not_found, Bool-cases, inl, inr, sym,
}
use fluxgate_operator.Api.{FindingSummary, PipelineSecurityReport}
use fluxgate_operator.Platform.{Platform, NamespacedName, CtrlResult, no_requeue}
use fluxgate_operator.Analyzer.Compliance.{compute_compliance_state}
use fluxgate_operator.Controller.Report.{summary_eq, needs_update, refreshed, refresh, reconcile}

-- The state and the counts are those of the findings.
abbrev pub IsConsistent : PipelineSecurityReport → Type 0
IsConsistent r =
    (r.status.compliance_state ≡ (compute_compliance_state r.status.findings).0)
    × (r.status.summary ≡ (compute_compliance_state r.status.findings).1)

summary_eq-eq : (a b : FindingSummary) → summary_eq a b ≡ true → a ≡ b
unfolding summary_eq
summary_eq-eq a b h = ground (
  arith,
  eqb_ℤ-eq a.critical b.critical,
  eqb_ℤ-eq a.high b.high,
  eqb_ℤ-eq a.medium b.medium,
  eqb_ℤ-eq a.low b.low,
  eqb_ℤ-eq a.info b.info,
  eqb_ℤ-eq a.total b.total,
)

summary_eq_refl : (a : FindingSummary) → summary_eq a a ≡ true
unfolding summary_eq
summary_eq_refl a = rw (
  eqb_ℤ_refl a.critical,
  eqb_ℤ_refl a.high,
  eqb_ℤ_refl a.medium,
  eqb_ℤ_refl a.low,
  eqb_ℤ_refl a.info,
  eqb_ℤ_refl a.total,
)

needs_update-IsConsistent : (r : PipelineSecurityReport) → needs_update r ≡ false → IsConsistent r
unfolding needs_update
needs_update-IsConsistent r h =
    let c = compute_compliance_state r.status.findings in
    grind (texts, summary_eq-eq r.status.summary c.1)

needs_update-false : (r : PipelineSecurityReport) → IsConsistent r → needs_update r ≡ false
unfolding needs_update
needs_update-false r (same, counted) =
    let c = compute_compliance_state r.status.findings in
    rw (same, counted, eq_refl c.0, summary_eq_refl c.1)

-- The report with the state and the counts of its findings, and all else as it was.
abbrev pub consistent : PipelineSecurityReport → PipelineSecurityReport
consistent r =
    let (state, summary) = compute_compliance_state r.status.findings in
    record r { status = record r.status { compliance_state = state; summary = summary } }

refreshed-consistent : (r : PipelineSecurityReport) → refreshed r ≡ consistent r
unfolding refreshed
refreshed-consistent r =
    let c = compute_compliance_state r.status.findings in
    grind (texts, summary_eq-eq r.status.summary c.1)

-- `ok` becomes a result with no requeue; an error is returned.
abbrev pub done : Result (Unit {0}) → Result CtrlResult
done r = r >>= λ _. ok no_requeue

-- A report at another instant; the API server keeps instants in whole seconds.
abbrev pub at_time : ℤ → PipelineSecurityReport → PipelineSecurityReport
at_time t r = record r { status = record r.status { last_evaluated = t } }

-- What the API server promises of a status write that succeeds: a later read gives the report as it
-- was written, but for the precision of its instant, where the write kept the metadata that was read.
abbrev pub KeepsStatus : Platform → Type 0
KeepsStatus P =
    (s : P.State) (nn : NamespacedName) (r r' : PipelineSecurityReport)
    → P.get_report s nn ≡ ok r
    → r'.meta ≡ r.meta
    → (P.update_report_status s r').0 ≡ ok tt
    → (t : ℤ) × (P.get_report (P.update_report_status s r').1 nn ≡ ok (at_time t r'))

consistent-eq_self : (r : PipelineSecurityReport) → IsConsistent r → consistent r ≡ r
consistent-eq_self r (same, counted) = λ i. record r {
  status = record r.status { compliance_state = sym same i; summary = sym counted i };
}

ok_of_done : (x : Result (Unit {0})) → done x ≡ ok no_requeue → x ≡ ok tt
ok_of_done (ok tt) h = refl
ok_of_done (err e) h = cc

module _ (P : Platform) (nn : NamespacedName) (s : P.State) where
  reconcile-refresh :
      (r : PipelineSecurityReport) → P.get_report s nn ≡ ok r → reconcile P nn s ≡ refresh P r s
  unfolding reconcile
  reconcile-refresh r found = rw (found, reconcile)

  refresh-stale :
      (r : PipelineSecurityReport)
      → needs_update r ≡ true
      → refresh P r s
        ≡ (let (written, s') = P.update_report_status s (consistent r) in (done written, s'))
  unfolding refresh
  refresh-stale r stale = rw (stale, refreshed-consistent r)

  refresh-fresh :
      (r : PipelineSecurityReport) → needs_update r ≡ false → refresh P r s ≡ (ok no_requeue, s)
  unfolding refresh
  refresh-fresh r fresh = rw fresh

  -- A report that is there is written exactly when its state or its counts are not those of its
  -- findings. Then the report is written with the computed state and counts and all else as it was,
  -- and the write's error, if any, is returned.
  pub reconcile-found :
      (r : PipelineSecurityReport)
      → P.get_report s nn ≡ ok r
      → (IsConsistent r × (reconcile P nn s ≡ (ok no_requeue, s)))
        ⊎ ((¬ IsConsistent r)
            × (reconcile P nn s ≡ (
                let (written, s') = P.update_report_status s (consistent r) in (done written, s'))))
  reconcile-found r found = elim (Bool-cases (needs_update r)) [
    | inl stale ↦
        inr (λ c. cc (needs_update-false r c), reconcile-refresh r found ∙ refresh-stale r stale)
    | inr fresh ↦
        inl (needs_update-IsConsistent r fresh, reconcile-refresh r found ∙ refresh-fresh r fresh)
  ]

  -- A report that is not there is no error, and nothing is written; any other error of the read is
  -- returned, and nothing is written.
  reconcile-not_read :
      (e : Error) → P.get_report s nn ≡ err e → reconcile P nn s ≡ (done (ignore_not_found e), s)
  unfolding reconcile
  reconcile-not_read e missing = rw (missing, reconcile)

  pub reconcile-consistent :
      (r : PipelineSecurityReport)
      → P.get_report s nn ≡ ok r
      → IsConsistent r
      → reconcile P nn s ≡ (ok no_requeue, s)
  reconcile-consistent r found c =
      reconcile-refresh r found ∙ refresh-fresh r (needs_update-false r c)

module _ (P : Platform) (keeps : KeepsStatus P) (nn : NamespacedName) (s : P.State) where
  -- Where the API server keeps the statuses that it accepts, but for the precision of instants: after a
  -- reconciliation of a report that returns no error, the stored report is the one that was read with the
  -- state and the counts of its findings, and a second reconciliation writes nothing.
  pub reconcile_twice :
      (r : PipelineSecurityReport)
      → P.get_report s nn ≡ ok r
      → (reconcile P nn s).0 ≡ ok no_requeue
      → let s' = (reconcile P nn s).1 in
        ((t : ℤ) × (P.get_report s' nn ≡ ok (at_time t (consistent r))))
        × (reconcile P nn s' ≡ (ok no_requeue, s'))
  reconcile_twice r found fine = elim (reconcile-found P nn s r found) [
    | inl (same, unchanged) ↦
        rw unchanged
          ((r.status.last_evaluated, found ∙ ap ok (sym (consistent-eq_self r same))), unchanged)
    | inr (stale, written) ↦
        let (t, kept) =
          keeps s nn r (consistent r) found refl (ok_of_done _ (rw written at fine)) in
        rw written
          ((t, kept), reconcile-consistent P nn _ (at_time t (consistent r)) kept (refl, refl))
  ]

-- ===== src/Tests/Reports.antt =====
-- Runs and theorems about findings and the reports that hold them.
use fluxgate_operator.Prelude.{
  ◌<◌, ◌≤◌, ◌⊎◌, ◌≡◌, refl, arith, List, [], ◌∷◌, ok, err, not_found, length, pos, int_limit,
  Result, String, ℤ, inl, inr,
}
use fluxgate_operator.Platform.{no_requeue}
use fluxgate_operator.Analyzer.Compliance.{compute_compliance_state}
use fluxgate_operator.Analyzer.Compliance.Counts.{summary_of, compute_compliance_state-counts}
use fluxgate_operator.Analyzer.Compliance.State.{compute_compliance_state-worst}
use fluxgate_operator.Controller.Report.{reconcile}
use fluxgate_operator.Controller.Report.Laws.{at_time, consistent, reconcile_twice}
use fluxgate_operator.Tests.Memory.{memory, find_report, memory-KeepsStatus, update_in}
use fluxgate_operator.Tests.Data.{mixed, counted, shop_key, stale_report, cluster_with}

mixed_state :
    compute_compliance_state mixed ≡ ("NonCompliant", counted (pos 0) (pos 1) (pos 1) (pos 3))
unfolding compute_compliance_state fluxgate_operator.Analyzer.Compliance.state_of_summary
    fluxgate_operator.Analyzer.Compliance.summarize
    fluxgate_operator.Analyzer.Compliance.count_severity fluxgate_operator.Prelude.int_inc
mixed_state = refl

compute_compliance_state-counts_example :
    (compute_compliance_state mixed).1 ≡ summary_of 0 1 1 0 0 3
compute_compliance_state-counts_example = compute_compliance_state-counts mixed (omega arith)

compute_compliance_state-worst_example : (compute_compliance_state mixed).0 ≡ "NonCompliant"
compute_compliance_state-worst_example = compute_compliance_state-worst mixed (omega arith)

-- The report controller on a report that has not been counted.
reconcile_twice_example :
    let s' = (reconcile memory shop_key (cluster_with (stale_report ∷ []) (pos 5))).1 in
    ((t : ℤ) × (memory.get_report s' shop_key ≡ ok (at_time t (consistent stale_report))))
    × (reconcile memory shop_key s' ≡ (ok no_requeue, s'))
unfolding find_report reconcile fluxgate_operator.Controller.Report.refresh
    fluxgate_operator.Controller.Report.needs_update compute_compliance_state
    fluxgate_operator.Analyzer.Compliance.state_of_summary
    fluxgate_operator.Analyzer.Compliance.summarize
    fluxgate_operator.Analyzer.Compliance.count_severity fluxgate_operator.Prelude.int_inc update_in
reconcile_twice_example =
    reconcile_twice memory memory-KeepsStatus shop_key (cluster_with (stale_report ∷ []) (pos 5))
      stale_report refl refl

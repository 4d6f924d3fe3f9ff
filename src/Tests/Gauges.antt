-- ===== src/Tests/Gauges.antt =====
-- The gauges that a scrape shows after an analysis, with a scrape that replays the calls.
use fluxgate_operator.Prelude.{
  true, List, [], ◌∷◌, push, any, Option, none, some, String, ℤ, pos, if◌then◌else◌, ◌≡◌, refl,
}
use fluxgate_operator.Metrics.{compliance_state_to_float}
use fluxgate_operator.Metrics.Collectors.{
  call_of, after, IsScrape, findings_total_collector, compliance_state_collector,
}
use fluxgate_operator.Platform.World.{World, MetricUpdate, findings_total}
use fluxgate_operator.Analyzer.Compliance.{compute_compliance_state}
use fluxgate_operator.Controller.Analysis.{announce, connector_label}
use fluxgate_operator.Controller.Analysis.Gauges.{is_of, announce-shows}
use fluxgate_operator.Tests.Memory.{memory}
use fluxgate_operator.Tests.Data.{mixed, shop_report, shop, world_with}

unfoldable replayed : String → List String → Option ℤ → List MetricUpdate → Option ℤ
replayed name values old [] = old
replayed name values old (m ∷ ms) = replayed name values (after (call_of m) name values old) ms

abbrev scraped : List MetricUpdate → String → List String → Option ℤ
scraped ms name values = replayed name values none ms

replayed-push :
    (name : String) (values : List String) (old : Option ℤ) (ms : List MetricUpdate)
    (m : MetricUpdate)
    → replayed name values old (push ms m)
      ≡ after (call_of m) name values (replayed name values old ms)
unfolding replayed
replayed-push name values old [] m = refl
replayed-push name values old (x ∷ ms) m =
    replayed-push name values (after (call_of x) name values old) ms m

scraped-IsScrape : IsScrape scraped
unfolding replayed
scraped-IsScrape = record {
  at_first = λ name values. refl;
  shows-push = λ ms m name values. replayed-push name values none ms m;
}

-- A finding that was measured before and is not found any more.
abbrev measured : World memory
measured = record (world_with [] (pos 0)) {
  metrics = findings_total "ci" "psr-acme-shop" "old-rule" "high" ∷ [];
}

announce-shows_example :
    let w = announce memory true shop mixed shop_report measured in
    let key : List String = "ci" ∷ "psr-acme-shop" ∷ "old-rule" ∷ "high" ∷ [] in
    (scraped w.metrics compliance_state_collector.name ("ci" ∷ "psr-acme-shop" ∷ "argocd" ∷ [])
      ≡ some (compliance_state_to_float (compute_compliance_state mixed).0))
    × (scraped w.metrics findings_total_collector.name key ≡ (
        if any (is_of "old-rule" "high") mixed
        then some (pos 1)
        else scraped measured.metrics findings_total_collector.name key))
unfolding connector_label
announce-shows_example =
    announce-shows memory scraped scraped-IsScrape true shop mixed shop_report measured "old-rule"
      "high"

-- The gauge of the finding that is gone still shows 1.
gauge_of_old_rule :
    scraped measured.metrics findings_total_collector.name
      ("ci" ∷ "psr-acme-shop" ∷ "old-rule" ∷ "high" ∷ [])
    ≡ some (pos 1)
unfolding replayed
gauge_of_old_rule = refl

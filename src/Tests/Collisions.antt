-- ===== src/Tests/Collisions.antt =====
-- Two sources that share a report, analysed one after the other.
use fluxgate_operator.Prelude.{true, List, [], ◌∷◌, ok, pos, ◌≡◌, refl}
use fluxgate_operator.Api.{Finding, PipelineSecurityReport}
use fluxgate_operator.Connector.Types.{PipelineSource}
use fluxgate_operator.Platform.World.{World}
use fluxgate_operator.Controller.Report.Laws.{IsConsistent}
use fluxgate_operator.Controller.Analysis.{store_report, finish}
use fluxgate_operator.Controller.Analysis.Laws.{report_key}
use fluxgate_operator.Controller.Analysis.Naming.{is_name_code, sanitize_name}
use fluxgate_operator.Controller.Analysis.Collision.{store_report-overwrites}
use fluxgate_operator.Tests.Memory.{memory, memory-KeepsStatus, find_report}
use fluxgate_operator.Tests.Data.{finding, mixed, stale_report, source_of, world_with}

abbrev first_source : PipelineSource
first_source = source_of "once" "x" "y-z"

abbrev second_source : PipelineSource
second_source = record (source_of "twice" "x-y" "z") { repository = "https://github.com/x-y/z" }

abbrev shared_report : PipelineSecurityReport
shared_report = record stale_report { meta = record stale_report.meta { name = "psr-x-y-z" } }

abbrev sharing : World memory
sharing = world_with (shared_report ∷ []) (pos 5)

abbrev grave : List Finding
grave = finding "critical" ∷ []

store_report-overwrites_example :
    let w' =
      (store_report memory true second_source mixed []
        (store_report memory true first_source grave [] sharing).1).1 in
    (r : PipelineSecurityReport) × (memory.get_report w'.api
        (report_key memory true first_source grave)
      ≡ ok r)
    × (r.meta ≡ shared_report.meta)
    × (r.status.findings ≡ mixed)
    × (r.status.source.repository ≡ "https://github.com/x-y/z")
    × IsConsistent r
unfolding find_report sanitize_name fluxgate_operator.Controller.Analysis.Naming.trim
    fluxgate_operator.Controller.Analysis.Naming.trim_right
    fluxgate_operator.Controller.Analysis.Naming.trim_left
    fluxgate_operator.Controller.Analysis.Naming.replace_others fluxgate_operator.Prelude.to_lower
    fluxgate_operator.Prelude.concat fluxgate_operator.Controller.Analysis.Naming.is_trimmed
    is_name_code store_report finish fluxgate_operator.Tests.Memory.update_in
    fluxgate_operator.Controller.Analysis.announce
    fluxgate_operator.Controller.Analysis.emit_finding_events
    fluxgate_operator.Analyzer.Compliance.compute_compliance_state
    fluxgate_operator.Analyzer.Compliance.summarize
    fluxgate_operator.Analyzer.Compliance.count_severity fluxgate_operator.Prelude.int_inc
    fluxgate_operator.Controller.Analysis.record_findings_metrics
    fluxgate_operator.Controller.Analysis.measure_findings
    fluxgate_operator.Tests.Memory.replace_report
store_report-overwrites_example =
    store_report-overwrites memory true first_source second_source grave mixed "x" "y" "z" [] []
      sharing shared_report (refl, refl, refl, refl, refl) memory-KeepsStatus refl refl refl

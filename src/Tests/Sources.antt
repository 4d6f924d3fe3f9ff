-- ===== src/Tests/Sources.antt =====
-- Runs and theorems about sources: their URLs, the registry, the fetch and the analysis.
use Prim.Native.String.{len}
use fluxgate_operator.Prelude.{
  ◌<◌, ◌≤◌, ◌⊎◌, ◌≡◌, ◌↔◌, refl, arith, Bool, true, false, All, List, [], ◌∷◌, NodupKeys, lookup,
  Option, none, some, Result, ok, err, not_found, failure, String, ◌==◌, ◌<>◌, pos, time_sub, ltb_ℤ,
  leb, if◌then◌else◌, inl, inr, text_at, to_lower, value_or,
}
use fluxgate_operator.Api.{PipelineSecurityReport}
use fluxgate_operator.Connector.Types.{PipelineSource}
use fluxgate_operator.Connector.RepoUrl.{parse_repo_url}
use fluxgate_operator.Connector.RepoUrl.Laws.{parse_repo_url-scp}
use fluxgate_operator.Platform.{no_requeue}
use fluxgate_operator.Platform.World.{World, CachedResult}
use fluxgate_operator.Analyzer.Analyze.{Analyzer, cache_key, analyze, fetch_and_scan}
use fluxgate_operator.Analyzer.Analyze.Laws.{Caches, analyze-Caches, analyze_again}
use fluxgate_operator.Controller.Policy.Select.{label_source_kind, label_source_name}
use fluxgate_operator.Controller.Report.{reconcile}
use fluxgate_operator.Controller.Report.Laws.{IsConsistent}
use fluxgate_operator.Controller.Analysis.{namespace_of, report_name, store_report}
use fluxgate_operator.Controller.Analysis.Laws.{
  report_key, store_report-writes, store_report-settled,
}
use fluxgate_operator.Controller.Analysis.Naming.{is_name_code, sanitize_name, trim, replace_others}
use fluxgate_operator.Controller.Analysis.Naming.Laws.{
  Each, StartsPlain, EndsPlain, sanitize_name-IsName,
}
use fluxgate_operator.Tests.Memory.{memory, memory-KeepsStatus, find_report}
use fluxgate_operator.Tests.Data.{
  mixed, shop, source_of, stale_report, cluster_with, world_with, analyzer,
}

abbrev no_url : String → Option String
no_url s = none

parse_repo_url-scp_example :
    parse_repo_url no_url
      ("git@" <> ("github.com" <> (":" <> ("acme" <> ("/" <> ("shop" <> ".git"))))))
    ≡ some ("acme", "shop")
parse_repo_url-scp_example =
    parse_repo_url-scp no_url "github.com" "acme" "shop"
      (refl, (refl, (refl, (refl, (refl, (refl, (refl, (refl, (refl, (refl, tt))))))))))
      (refl, (refl, (refl, (refl, tt)))) (refl, (refl, (refl, (refl, tt))))

abbrev moved : PipelineSource
moved = record shop { branch = "dev" }

-- A source that has moved to another namespace.
abbrev elsewhere : PipelineSource
elsewhere = record shop { target_namespace = "staging" }

abbrev owned_twice : PipelineSource
owned_twice = source_of "twice" "x-y" "z"

sanitize_name-IsName_example :
    Each is_name_code (sanitize_name memory.unicode "psr-Acme-My_Shop!")
    × StartsPlain (sanitize_name memory.unicode "psr-Acme-My_Shop!")
    × (len (sanitize_name memory.unicode "psr-Acme-My_Shop!") ≤ 253)
    × (EndsPlain (sanitize_name memory.unicode "psr-Acme-My_Shop!")
        ⊎ (253 < len (trim (replace_others (to_lower memory.unicode "psr-Acme-My_Shop!")))))
sanitize_name-IsName_example = sanitize_name-IsName memory.unicode "psr-Acme-My_Shop!"

analyze-Caches_example :
    Caches memory analyzer shop
      (world_with [] (pos 0))
      (analyze memory analyzer shop (world_with [] (pos 0)))
analyze-Caches_example = analyze-Caches memory analyzer shop (world_with [] (pos 0))

-- The contents of the directory are given, and so is the one workflow file.
abbrev online : World memory
online = record (world_with [] (pos 0)) {
  cache = (cache_key shop, record { findings = mixed; fetched_at = pos 0 }) ∷ [];
}

-- The same, a minute later.
abbrev later : World memory
later = record online { api = cluster_with [] (pos 60000000000) }

analyze_again_example :
    (entry : CachedResult) × (lookup (cache_key shop) (analyze memory analyzer shop online).1.cache
      ≡ some entry)
    × (analyze memory analyzer shop later ≡ (
        if ltb_ℤ (time_sub (pos 60000000000) entry.fetched_at) (pos 600000000000)
        then (ok mixed, later)
        else fetch_and_scan memory analyzer shop later))
unfolding analyze fluxgate_operator.Analyzer.Analyze.cached lookup fluxgate_operator.Prelude.concat
    time_sub
analyze_again_example = analyze_again memory analyzer shop online later mixed refl refl

store_report-settled_example :
    let w = world_with (stale_report ∷ []) (pos 5) in
    let s = (store_report memory true shop mixed [] w).1.api in
    ((r : PipelineSecurityReport) × (memory.get_report s (report_key memory true shop mixed) ≡ ok r)
      × (r.status.findings ≡ mixed))
    × (reconcile memory (report_key memory true shop mixed) s ≡ (ok no_requeue, s))
unfolding find_report sanitize_name fluxgate_operator.Controller.Analysis.Naming.trim
    fluxgate_operator.Controller.Analysis.Naming.trim_right
    fluxgate_operator.Controller.Analysis.Naming.trim_left
    fluxgate_operator.Controller.Analysis.Naming.replace_others fluxgate_operator.Prelude.to_lower
    fluxgate_operator.Prelude.concat fluxgate_operator.Controller.Analysis.Naming.is_trimmed
    is_name_code store_report fluxgate_operator.Controller.Analysis.finish
    fluxgate_operator.Tests.Memory.update_in
store_report-settled_example =
    store_report-settled memory true shop mixed [] (world_with (stale_report ∷ []) (pos 5))
      stale_report memory-KeepsStatus refl refl

store_report-writes_example :
    let w = world_with (stale_report ∷ []) (pos 5) in
    let s' = (store_report memory true shop mixed [] w).1.api in
    let key = report_key memory true shop mixed in
    ((m : String) × (r : PipelineSecurityReport) × (memory.get_report w.api key ≡ err (not_found m))
      × (s' ≡ (memory.create_report w.api r).1)
      × (r.meta.name ≡ report_name memory shop)
      × (r.meta.namespace ≡ namespace_of shop)
      × (text_at label_source_name r.meta.labels ≡ "shop")
      × (text_at label_source_kind r.meta.labels ≡ "Application")
      × (r.status.findings ≡ mixed)
      × IsConsistent r)
    ⊎ ((old r : PipelineSecurityReport) × (memory.get_report w.api key ≡ ok old)
        × (s' ≡ (memory.update_report_status w.api r).1)
        × (r.meta ≡ old.meta)
        × (r.status.findings ≡ mixed)
        × IsConsistent r)
    ⊎ ((m : String) × (memory.get_report w.api key ≡ err (failure m))
        × ((store_report memory true shop mixed [] w).1 ≡ w))
store_report-writes_example =
    store_report-writes memory true shop mixed [] (world_with (stale_report ∷ []) (pos 5))

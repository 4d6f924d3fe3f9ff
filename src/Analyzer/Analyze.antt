-- ===== src/Analyzer/Analyze.antt =====
-- internal/analyzer/analyzer.go, `Analyze`: the cache, the fetch and the scan.
pub mod Laws
use fluxgate_operator.Prelude.{
  Bool, true, false, List, [], ◌∷◌, ◌++◌, map, lookup, insert, Option, none, some, Result, ok, err,
  wrap, String, ◌==◌, ◌<>◌, concat, join, ℤ, ltb_ℤ, time_sub, if◌then◌else◌,
}
use fluxgate_operator.Api.{Finding}
use fluxgate_operator.Connector.Types.{PipelineSource}
use fluxgate_operator.Platform.{Platform, ScannerFinding}
use fluxgate_operator.Platform.World.{World, Op, CachedResult}
use fluxgate_operator.Analyzer.GitHub.{GitHubClient, WorkflowFile, fetch_workflow_files}

-- `Analyzer`, less its cache, which is in the `World`.
pub record Analyzer : Type 0 where
  pub github : GitHubClient
  pub cache_ttl : ℤ

-- `NewAnalyzer`
abbrev pub new_analyzer : String → ℤ → Analyzer
new_analyzer github_token cache_ttl = record {
  github = record { token = github_token; base_url = "" };
  cache_ttl = cache_ttl;
}

-- `convertFinding`
unfoldable pub convert_finding : ScannerFinding → Finding
convert_finding sf = record {
  rule = sf.rule_id;
  severity = sf.severity;
  file = sf.file;
  line = sf.line;
  message = sf.message;
  remediation = join sf.mitigations "; ";
}

abbrev pub cache_key : PipelineSource → String
cache_key src = concat (src.owner ∷ "/" ∷ src.repo ∷ "@" ∷ src.branch ∷ [])

module _ (P : Platform) where
  abbrev scanned : WorkflowFile P.Bytes → Result (List ScannerFinding)
  scanned file = P.scan_workflow_bytes file.content (".github/workflows/" <> file.name)

  -- The loop over the files: what cannot be parsed is skipped.
  unfoldable pub scan_files : List (WorkflowFile P.Bytes) → List Finding
  scan_files [] = []
  scan_files (file ∷ files) =
      let rest = scan_files files in
      elim (scanned file) [ err e ↦ rest | ok found ↦ map convert_finding found ++ rest ]

  -- The findings in the cache, where they are no older than the time to live.
  unfoldable pub cached : Analyzer → PipelineSource → World P → Option (List Finding)
  cached a src w = elim (lookup (cache_key src) w.cache) [
    | none ↦ none
    | some entry ↦
        if ltb_ℤ (time_sub (P.now w.api) entry.fetched_at) a.cache_ttl
        then some entry.findings
        else none
  ]

  abbrev pub store : PipelineSource → List Finding → World P → World P
  store src findings w = record w {
    cache =
        insert (cache_key src) (record { findings = findings; fetched_at = P.now w.api }) w.cache;
  }

  -- The part after the cache.
  unfoldable pub fetch_and_scan : Analyzer → PipelineSource → Op P (List Finding)
  fetch_and_scan a src w =
      let (fetched, w') = fetch_workflow_files P a.github src.owner src.repo src.branch w in
      elim fetched [
        | err e ↦ (
          err (
              wrap (concat ("fetching workflows for " ∷ src.owner ∷ "/" ∷ src.repo ∷ ": " ∷ [])) e),
          w',
        )
        | ok files ↦ (ok (scan_files files), store src (scan_files files) w')
      ]

  -- `Analyze`
  unfoldable pub analyze : Analyzer → PipelineSource → Op P (List Finding)
  analyze a src w = elim (cached a src w) [
    | some findings ↦ (ok findings, w)
    | none ↦ fetch_and_scan a src w
  ]

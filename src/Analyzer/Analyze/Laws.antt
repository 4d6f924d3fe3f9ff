-- ===== src/Analyzer/Analyze/Laws.antt =====
-- What the cache of `Analyze` keeps.
use fluxgate_operator.Prelude.{
  true, false, List, lookup, lookup-insert, none, some, Option-cases, Result, ok, err, Result-cases,
  subst, String, ◌==◌, eq_refl, ltb_ℤ, time_sub, if◌then◌else◌, ◌≡◌, refl, ap, ◌∙◌, inl, inr,
  Bool-cases,
}
use fluxgate_operator.Api.{Finding}
use fluxgate_operator.Connector.Types.{PipelineSource}
use fluxgate_operator.Platform.{Platform}
use fluxgate_operator.Platform.World.{World, CachedResult}
use fluxgate_operator.Analyzer.GitHub.{fetch_workflow_files}
use fluxgate_operator.Analyzer.GitHub.Laws.{fetch_workflow_files-IsUntouched}
use fluxgate_operator.Analyzer.Analyze.{
  store, Analyzer, cache_key, cached, scan_files, fetch_and_scan, analyze,
}

module _ (P : Platform) (a : Analyzer) (src : PipelineSource) where
  -- A finding list that is stored for the source and young enough.
  cached-young :
      (w : World P) (entry : CachedResult)
      → lookup (cache_key src) w.cache ≡ some entry
      → ltb_ℤ (time_sub (P.now w.api) entry.fetched_at) a.cache_ttl ≡ true
      → cached P a src w ≡ some entry.findings
  unfolding cached
  cached-young w entry found young = rw (found, cached, young)

  analyze-cached :
      (w : World P) (fs : List Finding)
      → cached P a src w ≡ some fs
      → analyze P a src w ≡ (ok fs, w)
  unfolding analyze
  analyze-cached w fs h = rw (h, analyze)

  analyze-uncached :
      (w : World P) → cached P a src w ≡ none → analyze P a src w ≡ fetch_and_scan P a src w
  unfolding analyze
  analyze-uncached w h = rw (h, analyze)

  -- What an analysis leaves in the cache: on an error, all as it was; on findings, an entry that holds
  -- them, and all other entries as they were.
  abbrev pub Caches : World P → Result (List Finding) × World P → Type 0
  Caches w (err e, w') = w'.cache ≡ w.cache
  Caches w (ok fs, w') =
      (entry : CachedResult) × (lookup (cache_key src) w'.cache ≡ some entry)
      × (entry.findings ≡ fs)
      × ((k : String) → (cache_key src == k) ≡ false → lookup k w'.cache ≡ lookup k w.cache)

  store-Caches :
      (w v : World P) (fs : List Finding) → v.cache ≡ w.cache → Caches w (ok fs, store P src fs v)
  store-Caches w v fs same =
      let entry : CachedResult = record { findings = fs; fetched_at = P.now v.api } in
      (
        entry,
        lookup-insert (cache_key src) (cache_key src) entry v.cache ∙ rw (eq_refl (cache_key src)),
        refl,
        λ k other. lookup-insert (cache_key src) k entry v.cache ∙ rw (other, same),
      )

  fetch_and_scan-Caches : (w : World P) → Caches w (fetch_and_scan P a src w)
  unfolding fetch_and_scan
  fetch_and_scan-Caches w =
      let fetched = fetch_workflow_files P a.github src.owner src.repo src.branch w in
      let (registry, cache, events) =
        fetch_workflow_files-IsUntouched P a.github src.owner src.repo src.branch w in
      elim (Result-cases fetched.0) [
        | inl (e, h) ↦ rw (h, fetch_and_scan) cache
        | inr (files, h) ↦
            rw (h, fetch_and_scan) (store-Caches w fetched.1 (scan_files P files) cache)
      ]

  cached-some :
      (w : World P) (fs : List Finding)
      → cached P a src w ≡ some fs
      → (entry : CachedResult) × (lookup (cache_key src) w.cache ≡ some entry)
        × (entry.findings ≡ fs)
  unfolding cached
  cached-some w fs h = elim (Option-cases (lookup (cache_key src) w.cache)) [
    | inl missing ↦ cc (rw (missing, cached) at h)
    | inr (entry, found) ↦
        elim (Bool-cases (ltb_ℤ (time_sub (P.now w.api) entry.fetched_at) a.cache_ttl)) [
          | inl young ↦ (
            entry,
            found,
            ap (λ x. elim x [ none ↦ fs | some y ↦ y ]) (rw (found, cached, young) at h),
          )
          | inr old ↦ cc (rw (found, cached, old) at h)
        ]
  ]

  -- Whatever the cache and the answers: an analysis that fails leaves the cache as it was; one that
  -- returns findings leaves an entry that holds them under the source's owner, repository and branch,
  -- and every other entry as it was.
  pub analyze-Caches : (w : World P) → Caches w (analyze P a src w)
  analyze-Caches w = elim (Option-cases (cached P a src w)) [
    | inl e ↦ rw (analyze-uncached w e) (fetch_and_scan-Caches w)
    | inr (fs, e) ↦
        let (entry, found, same) = cached-some w fs e in
        rw (analyze-cached w fs e) (entry, found, same, λ k other. refl)
  ]

  cached-old :
      (w : World P) (entry : CachedResult)
      → lookup (cache_key src) w.cache ≡ some entry
      → ltb_ℤ (time_sub (P.now w.api) entry.fetched_at) a.cache_ttl ≡ false
      → cached P a src w ≡ none
  unfolding cached
  cached-old w entry found old = rw (found, cached, old)

  -- After an analysis that returned findings, in any later world with the cache as it was left: while the
  -- entry of the source is younger than the time to live, an analysis returns the same findings and
  -- changes nothing, so that no request is sent; from then on, it fetches and scans again.
  pub analyze_again :
      (w v : World P) (fs : List Finding)
      → (analyze P a src w).0 ≡ ok fs
      → v.cache ≡ (analyze P a src w).1.cache
      → (entry : CachedResult) × (lookup (cache_key src) (analyze P a src w).1.cache ≡ some entry)
        × (analyze P a src v ≡ (
            if ltb_ℤ (time_sub (P.now v.api) entry.fetched_at) a.cache_ttl
            then (ok fs, v)
            else fetch_and_scan P a src v))
  analyze_again w v fs h kept =
      let (entry, found, same, others) =
        subst (λ r. Caches w (r, (analyze P a src w).1)) h (analyze-Caches w) in
      (
        entry,
        found,
        elim (Bool-cases (ltb_ℤ (time_sub (P.now v.api) entry.fetched_at) a.cache_ttl)) [
          | inl young ↦
              analyze-cached v fs (
                cached-young v entry (ap (lookup (cache_key src)) kept ∙ found) young
                ∙ ap some same)
              ∙ rw young
          | inr old ↦
              analyze-uncached v (cached-old v entry (ap (lookup (cache_key src)) kept ∙ found) old)
              ∙ rw old
        ],
      )

-- ===== src/Connector/Found.antt =====
-- What the sources that connectors find are like.
use fluxgate_operator.Prelude.{
  Bool, true, false, ◌||◌, List, [], ◌∷◌, map, All, All-append, Dict, Option, Option-cases, none,
  some, Result-cases, value_or, String, ◌==◌, eq_refl, if◌then◌else◌, ◌≡◌, ◌≢◌, ◌⊎◌, refl, arith,
  Bool-cases, inl, inr,
}
use fluxgate_operator.Connector.Types.{
  FluxGitReference, FluxGitRepository, FluxKustomization, PipelineSource, TektonPipeline,
}
use fluxgate_operator.Connector.RepoUrl.{parse_repo_url}
use fluxgate_operator.Connector.ArgoCd.{
  application_source, unmarshal_application, application_sources, discover_applications,
  argo_cd_connector, argo_cd_gvk,
}
use fluxgate_operator.Connector.Flux.{
  reference_branch, repository_source, kustomization_source, sources_of_repository,
  unmarshal_git_repository, index_kustomizations, kustomizations_of, repository_sources,
  discover_repositories, flux_connector, source_gvk, kustomize_gvk,
}
use fluxgate_operator.Connector.Tekton.{
  extract_git_params, pipeline_source, unmarshal_pipeline, source_of_pipeline, pipeline_sources,
  active_pipelines, discover_pipelines, tekton_connector, tekton_gvk,
}
use fluxgate_operator.Platform.{Platform}

-- The owner and the name are those of the URL, the branch is not empty, and the kind is one of the given.
abbrev pub IsFound : (P : Platform) → (String → Bool) → PipelineSource → Type 0
IsFound P kinds src =
    (parse_repo_url P.url_path src.repository ≡ some (src.owner, src.repo))
    × (src.branch ≢ "")
    × (kinds src.source_kind ≡ true)

abbrev pub is_application : String → Bool
is_application kind = kind == "Application"

abbrev pub is_flux_kind : String → Bool
is_flux_kind kind = kind == "Kustomization" || kind == "GitRepository"

abbrev pub is_pipeline : String → Bool
is_pipeline kind = kind == "Pipeline"

if-ne : (b : Bool) (s t : String) → s ≢ "" → (b ≡ false → t ≢ "") → (if b then s else t) ≢ ""
if-ne true s t h k = h
if-ne false s t h k = k refl

main-ne : ◌≢◌ {A = String} "main" ""
main-ne h = cc

ne_of_eqb : (s : String) → (s == "") ≡ false → s ≢ ""
ne_of_eqb s h e = cc (h, eq_refl s, e)

false_of_or : (a b : Bool) → (a || b) ≡ false → a ≡ false
false_of_or a b h = ground arith

reference_branch-ne : (r : Option FluxGitReference) → reference_branch r ≢ ""
unfolding reference_branch
reference_branch-ne none = main-ne
reference_branch-ne (some r) =
    if-ne (r.branch == "") (if r.tag == "" then "main" else r.tag) r.branch
      (if-ne (r.tag == "") "main" r.tag main-ne (ne_of_eqb r.tag)) (ne_of_eqb r.branch)

module _ (P : Platform) where
  application_sources-IsFound :
      (items : List P.Object) → All (IsFound P is_application) (application_sources P items)
  unfolding application_sources application_source
  application_sources-IsFound [] = tt
  application_sources-IsFound (item ∷ items) = elim (Result-cases (unmarshal_application P item)) [
    | inl (e, h) ↦ rw (h, application_sources) (application_sources-IsFound items)
    | inr (app, h) ↦ elim (Option-cases (parse_repo_url P.url_path app.spec.source.repo_url)) [
      | inl k ↦ rw (h, application_sources, k) (application_sources-IsFound items)
      | inr ((owner, repo), k) ↦
          rw (h, application_sources, k)
            (
              (
                k,
                if-ne
                    (app.spec.source.target_revision == ""
                      || app.spec.source.target_revision == "HEAD")
                    "main" app.spec.source.target_revision main-ne
                    (λ off. ne_of_eqb app.spec.source.target_revision (false_of_or _ _ off)),
                refl,
              ),
              application_sources-IsFound items,
            )
    ]
  ]

  All-map-IsFound :
      (f : FluxKustomization → PipelineSource) (kss : List FluxKustomization)
      → ((ks : FluxKustomization) → IsFound P is_flux_kind (f ks))
      → All (IsFound P is_flux_kind) (map f kss)
  All-map-IsFound f [] h = tt
  All-map-IsFound f (ks ∷ kss) h = (h ks, All-map-IsFound f kss h)

  sources_of_repository-IsFound :
      (g : FluxGitRepository) (owner repo : String) (kss : List FluxKustomization)
      → parse_repo_url P.url_path g.spec.url ≡ some (owner, repo)
      → All (IsFound P is_flux_kind) (sources_of_repository g owner repo kss)
  unfolding sources_of_repository repository_source kustomization_source
  sources_of_repository-IsFound g owner repo [] h =
      ((h, reference_branch-ne g.spec.reference, refl), tt)
  sources_of_repository-IsFound g owner repo (ks ∷ kss) h =
      All-map-IsFound (kustomization_source g owner repo) (ks ∷ kss)
        (λ k. (h, reference_branch-ne g.spec.reference, refl))

  repository_sources-IsFound :
      (index : Dict (List FluxKustomization)) (items : List P.Object)
      → All (IsFound P is_flux_kind) (repository_sources P index items)
  unfolding repository_sources
  repository_sources-IsFound index [] = tt
  repository_sources-IsFound index (item ∷ items) =
      let rest = repository_sources-IsFound index items in
      elim (Result-cases (unmarshal_git_repository P item)) [
        | inl (e, h) ↦ rw (h, repository_sources) rest
        | inr (g, h) ↦ elim (Option-cases (parse_repo_url P.url_path g.spec.url)) [
          | inl k ↦ rw (h, repository_sources, k) rest
          | inr ((owner, repo), k) ↦
              rw (h, repository_sources, k)
                (All-append (IsFound P is_flux_kind)
                  (sources_of_repository g owner repo (kustomizations_of P index g))
                  (repository_sources P index items)
                  (sources_of_repository-IsFound g owner repo (kustomizations_of P index g) k) rest)
        ]
      ]

  source_of_pipeline-cases :
      (active : Dict Bool) (p : TektonPipeline)
      → (source_of_pipeline P active p ≡ none)
        ⊎ ((src : PipelineSource) × (source_of_pipeline P active p ≡ some src)
            × IsFound P is_pipeline src)
  unfolding source_of_pipeline pipeline_source
  source_of_pipeline-cases active p =
      let (url, branch) = extract_git_params p in
      elim (Bool-cases (url == "")) [
        | inl none_given ↦ inl (rw (none_given, source_of_pipeline))
        | inr given ↦ elim (Option-cases (parse_repo_url P.url_path url)) [
          | inl k ↦ inl (rw (given, source_of_pipeline, k))
          | inr ((owner, repo), k) ↦ inr (
            pipeline_source p active url branch owner repo,
            rw (given, source_of_pipeline, k),
            (k, if-ne (branch == "") "main" branch main-ne (ne_of_eqb branch), refl),
          )
        ]
      ]

  pipeline_sources-IsFound :
      (active : Dict Bool) (items : List P.Object)
      → All (IsFound P is_pipeline) (pipeline_sources P active items)
  unfolding pipeline_sources
  pipeline_sources-IsFound active [] = tt
  pipeline_sources-IsFound active (item ∷ items) =
      let rest = pipeline_sources-IsFound active items in
      elim (Result-cases (unmarshal_pipeline P item)) [
        | inl (e, h) ↦ rw (h, pipeline_sources) rest
        | inr (p, h) ↦ elim (source_of_pipeline-cases active p) [
          | inl k ↦ rw (h, pipeline_sources, k) rest
          | inr (src, k, is_found) ↦ rw (h, pipeline_sources, k) (is_found, rest)
        ]
      ]

  discover_applications-IsFound :
      (s : P.State) (ns : String)
      → All (IsFound P is_application) (value_or [] (discover_applications P s ns))
  unfolding discover_applications
  discover_applications-IsFound s ns =
      elim (Result-cases (P.list_objects s (argo_cd_gvk "ApplicationList") ns)) [
        | inl (e, h) ↦ rw (h, discover_applications) tt
        | inr (items, h) ↦ rw (h, discover_applications) (application_sources-IsFound items)
      ]

  discover_repositories-IsFound :
      (s : P.State) (ns : String)
      → All (IsFound P is_flux_kind) (value_or [] (discover_repositories P s ns))
  unfolding discover_repositories
  discover_repositories-IsFound s ns =
      elim (Result-cases (P.list_objects s (source_gvk "GitRepositoryList") ns)) [
        | inl (e, h) ↦ rw (h, discover_repositories) tt
        | inr (items, h) ↦
            elim (Result-cases (P.list_objects s (kustomize_gvk "KustomizationList") ns)) [
              | inl (e, k) ↦ rw (h, discover_repositories, k) tt
              | inr (kss, k) ↦
                  rw (h, discover_repositories, k)
                    (repository_sources-IsFound (index_kustomizations P kss []) items)
            ]
      ]

  discover_pipelines-IsFound :
      (s : P.State) (ns : String)
      → All (IsFound P is_pipeline) (value_or [] (discover_pipelines P s ns))
  unfolding discover_pipelines
  discover_pipelines-IsFound s ns =
      elim (Result-cases (P.list_objects s (tekton_gvk "PipelineList") ns)) [
        | inl (e, h) ↦ rw (h, discover_pipelines) tt
        | inr (items, h) ↦
            elim (Result-cases (P.list_objects s (tekton_gvk "PipelineRunList") ns)) [
              | inl (e, k) ↦ rw (h, discover_pipelines, k) (pipeline_sources-IsFound [] items)
              | inr (runs, k) ↦
                  rw (h, discover_pipelines, k)
                    (pipeline_sources-IsFound (active_pipelines P runs []) items)
            ]
      ]

  -- Whatever the cluster holds and whichever of its objects cannot be read: each source that a connector
  -- finds has the owner and the name that its repository's URL gives, a branch, and a kind of its
  -- connector: "Application" for ArgoCD, "Kustomization" or "GitRepository" for Flux, and "Pipeline" for
  -- Tekton.
  pub discover-IsFound :
      (s : P.State) (ns : String)
      → All (IsFound P is_application) (value_or [] ((argo_cd_connector P).discover s ns))
        × All (IsFound P is_flux_kind) (value_or [] ((flux_connector P).discover s ns))
        × All (IsFound P is_pipeline) (value_or [] ((tekton_connector P).discover s ns))
  discover-IsFound s ns = (
    discover_applications-IsFound s ns,
    discover_repositories-IsFound s ns,
    discover_pipelines-IsFound s ns,
  )

-- ===== src/Tests/Settled.antt =====
-- Discoveries that settle, and what gives a source its Kustomizations and its parameters.
use fluxgate_operator.Prelude.{All, List, [], ◌∷◌, none, some, lookup, String, pos, ◌≡◌, refl}
use fluxgate_operator.Connector.Types.{PipelineSource, TektonParam, TektonPipeline}
use fluxgate_operator.Connector.Flux.{source_ref_key, index_kustomizations, kustomizations_of}
use fluxgate_operator.Connector.Flux.Index.{referring, readable, kustomizations_of-referring}
use fluxgate_operator.Connector.Tekton.{is_url_param, is_branch_param, extract_git_params}
use fluxgate_operator.Connector.Tekton.GitParams.{
  last_default, with_default, extract_git_params-last,
}
use fluxgate_operator.Controller.Discovery.{register_all, reconcile, get}
use fluxgate_operator.Controller.Discovery.Rounds.{found}
use fluxgate_operator.Controller.Discovery.Settled.{
  IsKnown, IsRegistered, UniqueNames, register_all-IsRegistered, reconcile_twice-registry,
}
use fluxgate_operator.Tests.Memory.{memory, repository}
use fluxgate_operator.Tests.Data.{shop, shop_key, world_with, cluster_with, connectors}

-- An application of the same name in another namespace, with another repository.
abbrev namesake : PipelineSource
namesake = record shop { repository = "https://github.com/acme/other"; namespace = "staging" }

register_all-IsRegistered_example :
    IsRegistered "shop" (shop ∷ namesake ∷ []) [] (register_all (shop ∷ namesake ∷ []) [])
register_all-IsRegistered_example = register_all-IsRegistered (shop ∷ namesake ∷ []) [] "shop"

-- Only the second of the two is in the registry.
namesake_kept : get "shop" (register_all (shop ∷ namesake ∷ []) []) ≡ some namesake
unfolding get lookup register_all fluxgate_operator.Controller.Discovery.register
    fluxgate_operator.Controller.Discovery.put fluxgate_operator.Prelude.insert
    fluxgate_operator.Controller.Discovery.source_changed
namesake_kept = refl

names_unique : UniqueNames (found memory "ci" connectors (cluster_with [] (pos 0)))
unfolding fluxgate_operator.Connector.ArgoCd.discover_applications
    fluxgate_operator.Connector.ArgoCd.application_sources
    fluxgate_operator.Connector.ArgoCd.unmarshal_application
    fluxgate_operator.Connector.ArgoCd.application_source
    fluxgate_operator.Connector.RepoUrl.parse_repo_url
    fluxgate_operator.Connector.RepoUrl.parse_ssh_url
    fluxgate_operator.Connector.RepoUrl.owner_and_repo fluxgate_operator.Prelude.has_prefix
    fluxgate_operator.Prelude.cut fluxgate_operator.Prelude.split_n
    fluxgate_operator.Prelude.trim_suffix fluxgate_operator.Prelude.insert
    fluxgate_operator.Prelude.wrap fluxgate_operator.Prelude.concat
    fluxgate_operator.Prelude.drop_prefix fluxgate_operator.Prelude.trim_prefix
    fluxgate_operator.Connector.Flux.discover_repositories
    fluxgate_operator.Connector.Flux.repository_sources
    fluxgate_operator.Connector.Flux.unmarshal_git_repository
    fluxgate_operator.Connector.Flux.sources_of_repository
    fluxgate_operator.Connector.Flux.unmarshal_kustomization
    fluxgate_operator.Connector.Flux.add_kustomization
    fluxgate_operator.Connector.Flux.kustomization_source
    fluxgate_operator.Connector.Flux.reference_branch
    fluxgate_operator.Connector.Flux.repository_source lookup index_kustomizations
names_unique = (refl, (refl, tt))

reconcile_twice-registry_example :
    let first = (reconcile memory connectors shop_key (world_with [] (pos 0))).1 in
    All
      (IsKnown first.registry)
      (found memory shop_key.namespace connectors (world_with [] (pos 0)).api)
    × ((reconcile memory connectors shop_key first).1.registry ≡ first.registry)
reconcile_twice-registry_example =
    reconcile_twice-registry memory connectors shop_key (world_with [] (pos 0)) names_unique

kustomizations_of-referring_example :
    kustomizations_of memory (index_kustomizations memory ("object" ∷ "object" ∷ []) []) repository
    ≡ referring (source_ref_key "GitRepository" "repo") (readable memory ("object" ∷ "object" ∷ []))
kustomizations_of-referring_example =
    kustomizations_of-referring memory ("object" ∷ "object" ∷ []) repository

abbrev param : String → String → TektonParam
param name text = record {
  name = name;
  type = "string";
  default = some (record { type = "string"; string_val = text });
}

-- The second URL overrides the first; the branch has no default.
abbrev build : TektonPipeline
build = record {
  meta = record { name = "build"; namespace = "ci"; labels = []; annotations = [] };
  spec = record {
    tasks = [];
    params =
        param "git-url" "https://github.com/acme/shop"
        ∷ record { name = "revision"; type = "string"; default = none }
        ∷ param "url" "https://github.com/acme/other"
        ∷ [];
  };
}

extract_git_params-last_example : extract_git_params build ≡ (
  with_default "" (last_default is_url_param build.spec.params),
  with_default "" (last_default is_branch_param build.spec.params),
)
extract_git_params-last_example = extract_git_params-last build

build_params : extract_git_params build ≡ ("https://github.com/acme/other", "")
unfolding extract_git_params fluxgate_operator.Connector.Tekton.git_params_from
build_params = refl

-- ===== src/Controller/Policy/Suspend/Missed.antt =====
-- Reports whose sync is never suspended.
use Prim.Native.String.{count}
use text.Mathlib.TextLemmas.{length-append}
use fluxgate_operator.Controller.Discovery.Laws.{lookup-register_ne}
use fluxgate_operator.Prelude.{
  Bool, true, List, lookup, text_at, none, ok, String, ◌<>◌, eq_iff, eqb_of_ne, concat, ◌≡◌, ◌≢◌,
  ◌⊎◌, ap, ◌∙◌, inl, inr, arith,
}
use fluxgate_operator.Api.{PipelineSecurityReport}
use fluxgate_operator.Connector.Types.{FluxGitRepository, FluxKustomization, PipelineConnector}
use fluxgate_operator.Connector.Flux.{kustomization_source}
use fluxgate_operator.Platform.{Platform}
use fluxgate_operator.Platform.World.{World}
use fluxgate_operator.Controller.Discovery.{Registry, register}
use fluxgate_operator.Controller.Policy.Select.{label_source_kind, label_source_name}
use fluxgate_operator.Controller.Policy.Suspend.{serves, suspend_now}
use fluxgate_operator.Controller.Policy.Suspend.Laws.{suspend_now-ok}

serves-kinds :
    (kind name : String)
    → serves kind name ≡ true
    → (kind ≡ "Application") ⊎ (kind ≡ "Kustomization") ⊎ (kind ≡ "GitRepository")
unfolding serves
serves-kinds kind name h =
    ground
      (arith, eq_iff kind "Application", eq_iff kind "Kustomization", eq_iff kind "GitRepository")

module _ (P : Platform) (cs : List (PipelineConnector P.State)) (rec : Bool) where
  -- Whatever the connectors and the registry: a report of another source kind than Application,
  -- Kustomization and GitRepository, such as Tekton's Pipeline, is never suspended without an error.
  pub suspend_now-other_kind :
      (r : PipelineSecurityReport) (w : World P)
      → text_at label_source_kind r.meta.labels ≢ "Application"
      → text_at label_source_kind r.meta.labels ≢ "Kustomization"
      → text_at label_source_kind r.meta.labels ≢ "GitRepository"
      → (suspend_now P cs rec r w).0 ≢ ok tt
  suspend_now-other_kind r w a k g h =
      let (src, conn, found, served, fine) = suspend_now-ok P cs rec r w h in
      elim (serves-kinds _ conn.name served) [
        | inl e ↦ a e
        | inr rest ↦ elim rest [ inl e ↦ k e | inr e ↦ g e ]
      ]

  suspend_now-missing_world :
      (r : PipelineSecurityReport) (w : World P)
      → lookup (text_at label_source_name r.meta.labels) w.registry ≡ none
      → (suspend_now P cs rec r w).1 ≡ w
  unfolding suspend_now
  suspend_now-missing_world r w missing = ground arith

  suspend_now-missing :
      (r : PipelineSecurityReport) (w : World P)
      → lookup (text_at label_source_name r.meta.labels) w.registry ≡ none
      → ((suspend_now P cs rec r w).0 ≢ ok tt) × ((suspend_now P cs rec r w).1 ≡ w)
  suspend_now-missing r w missing = (
    λ h.
        let (src, conn, found, served, fine) = suspend_now-ok P cs rec r w h in cc (missing, found),
    suspend_now-missing_world r w missing,
  )

-- A Kustomization's source is stored under another name than its `SourceName`.
kustomization_source-name :
    (g : FluxGitRepository) (owner repo : String) (ks : FluxKustomization)
    → (kustomization_source g owner repo ks).name
      ≢ (kustomization_source g owner repo ks).source_name
unfolding kustomization_source concat
kustomization_source-name g owner repo ks h =
    let same : g.meta.name <> ("/" <> (ks.meta.name <> "")) ≡ ks.meta.name = h in
    omega (
      arith,
      ap count same,
      length-append g.meta.name ("/" <> (ks.meta.name <> "")),
      length-append "/" (ks.meta.name <> ""),
      length-append ks.meta.name "",
    )

-- A source of a Kustomization is stored under "repository/kustomization" and looked up by the name of
-- the Kustomization alone. So after it is registered, a report that is labelled for it is not suspended:
-- there is an error and nothing is changed, unless the registry had another source under that name.
pub suspend_now-kustomization :
    (P : Platform) (cs : List (PipelineConnector P.State)) (rec : Bool) (g : FluxGitRepository)
    (owner repo : String) (ks : FluxKustomization) (registry : Registry)
    (r : PipelineSecurityReport) (w : World P)
    → let src = kustomization_source g owner repo ks in
      lookup src.source_name registry ≡ none
      → w.registry ≡ register (kustomization_source g owner repo ks) registry
      → text_at label_source_name r.meta.labels ≡ (kustomization_source g owner repo ks).source_name
      → ((suspend_now P cs rec r w).0 ≢ ok tt) × ((suspend_now P cs rec r w).1 ≡ w)
suspend_now-kustomization P cs rec g owner repo ks registry r w fresh stored labelled =
    let src = kustomization_source g owner repo ks in
    suspend_now-missing P cs rec r w (
      rw (labelled, stored)
        (lookup-register_ne src registry src.source_name
            (eqb_of_ne src.name src.source_name (kustomization_source-name g owner repo ks))
          ∙ fresh))

-- ===== src/Connector/Flux/Index.antt =====
-- Which Kustomizations a GitRepository gets.
use fluxgate_operator.Prelude.{
  List, [], ◌∷◌, ◌++◌, push, Dict, lookup, lookup-insert, Option, none, some, Result-cases, ok, err,
  String, ◌==◌, eq_iff, if◌then◌else◌, ◌≡◌, refl, sym, ap, ◌∙◌, Bool-cases, inl, inr,
}
use mathlib.Core.List.{append_assoc, append-nil}
use fluxgate_operator.Connector.Types.{FluxGitRepository, FluxKustomization}
use fluxgate_operator.Platform.{Platform}
use fluxgate_operator.Connector.Flux.{
  source_ref_key, add_kustomization, unmarshal_kustomization, index_kustomizations,
  kustomizations_of,
}

abbrev key_of : FluxKustomization → String
key_of ks = source_ref_key ks.spec.source_ref.kind ks.spec.source_ref.name

abbrev or_nil : Option (List FluxKustomization) → List FluxKustomization
or_nil found = elim found [ none ↦ [] | some kss ↦ kss ]

abbrev under : String → Dict (List FluxKustomization) → List FluxKustomization
under key index = or_nil (lookup key index)

-- Those that refer to a key, in their order.
abbrev pub referring : String → List FluxKustomization → List FluxKustomization
referring key [] = []
referring key (ks ∷ kss) =
    if source_ref_key ks.spec.source_ref.kind ks.spec.source_ref.name == key
    then ks ∷ referring key kss
    else referring key kss

module _ (P : Platform) where
  -- Those that can be read.
  abbrev pub readable : List P.Object → List FluxKustomization
  readable [] = []
  readable (item ∷ items) = elim (unmarshal_kustomization P item) [
    | err e ↦ readable items
    | ok ks ↦ ks ∷ readable items
  ]

  under-add_kustomization :
      (key : String) (ks : FluxKustomization) (index : Dict (List FluxKustomization))
      → under key (add_kustomization ks index) ≡ under key index ++ referring key (ks ∷ [])
  unfolding add_kustomization
  under-add_kustomization key ks index =
      let more = push (under (key_of ks) index) ks in
      ap or_nil (lookup-insert (key_of ks) key more index) ∙ (elim (Bool-cases (key_of ks == key)) [
        | inl here ↦
            let same : key_of ks ≡ key = (eq_iff (key_of ks) key).0 here in
            rw here (ap (λ k. push (under k index) ks) same)
        | inr other ↦ rw other (sym (append-nil (under key index)))
      ])

  referring-cons :
      (key : String) (ks : FluxKustomization) (kss : List FluxKustomization)
      → referring key (ks ∷ []) ++ referring key kss ≡ referring key (ks ∷ kss)
  referring-cons key ks kss = elim (Bool-cases (key_of ks == key)) [
    | inl here ↦ rw here refl
    | inr other ↦ rw other refl
  ]

  under-index_kustomizations :
      (key : String) (items : List P.Object) (index : Dict (List FluxKustomization))
      → under key (index_kustomizations P items index)
        ≡ under key index ++ referring key (readable items)
  unfolding index_kustomizations
  under-index_kustomizations key [] index = sym (append-nil (under key index))
  under-index_kustomizations key (item ∷ items) index =
      elim (Result-cases (unmarshal_kustomization P item)) [
        | inl (e, h) ↦
            rw (h, index_kustomizations, readable) (under-index_kustomizations key items index)
        | inr (ks, h) ↦
            rw (h, index_kustomizations, readable)
              (under-index_kustomizations key items (add_kustomization ks index)
                ∙ ap (λ l. l ++ referring key (readable items))
                    (under-add_kustomization key ks index)
                ∙ append_assoc (under key index) (referring key (ks ∷ []))
                    (referring key (readable items))
                ∙ ap (λ l. under key index ++ l) (referring-cons key ks (readable items)))
      ]

  -- The Kustomizations of a repository are, in the order of the list, exactly those that can be read and
  -- whose reference has the kind GitRepository and the repository's name, joined by a slash. The
  -- namespaces are not looked at: neither that of the repository, nor that of the Kustomization or of its
  -- reference, so that with a list of all namespaces, repositories of one name share their Kustomizations.
  pub kustomizations_of-referring :
      (items : List P.Object) (g : FluxGitRepository)
      → kustomizations_of P (index_kustomizations P items []) g
        ≡ referring (source_ref_key "GitRepository" g.meta.name) (readable items)
  unfolding lookup
  kustomizations_of-referring items g =
      under-index_kustomizations (source_ref_key "GitRepository" g.meta.name) items []

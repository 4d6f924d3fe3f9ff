-- ===== src/Controller/Discovery/Settled.antt =====
-- What the registry holds after a round of discovery, by name, and when a second round changes nothing.
use fluxgate_operator.Prelude.{
  List, [], ◌∷◌, All, IsIn, Option, none, some, String, ◌==◌, eq_refl, ◌≡◌, ◌⊎◌, refl, sym, ap, ◌∙◌,
  subst, inl, inr, Bool-cases, if◌then◌else◌,
}
use fluxgate_operator.Connector.Types.{PipelineConnector, PipelineSource}
use fluxgate_operator.Platform.{Platform, NamespacedName}
use fluxgate_operator.Platform.World.{World}
use fluxgate_operator.Controller.Discovery.{Registry, get, register, register_all, reconcile}
use fluxgate_operator.Controller.Discovery.Laws.{IsSameSource, get-register, register-stale}
use fluxgate_operator.Controller.Discovery.Rounds.{found, gauges, with_found, reconcile-with_found}

-- The last source of a list that bears a name.
abbrev pub last_named : String → List PipelineSource → Option PipelineSource
last_named k [] = none
last_named k (src ∷ srcs) = elim (last_named k srcs) [
  | some later ↦ some later
  | none ↦ if src.name == k then some src else none
]

-- What a registry has under a name after the registration of a list, by what it had before.
abbrev pub IsRegistered : String → List PipelineSource → Registry → Registry → Type 0
IsRegistered k srcs before after =
    ((last_named k srcs ≡ none) × (get k after ≡ get k before))
    ⊎ ((src now : PipelineSource) × (last_named k srcs ≡ some src)
        × (get k after ≡ some now)
        × IsSameSource now src)

-- Whatever is registered, and whatever the registry held: under a name it has, afterwards, a source with
-- the repository, the branch and the printed paths of the last of the list that bears the name, or what it
-- had before, where none does.
pub register_all-IsRegistered :
    (srcs : List PipelineSource) (r : Registry) (k : String)
    → IsRegistered k srcs r (register_all srcs r)
unfolding register_all
register_all-IsRegistered [] r k = inl (refl, refl)
register_all-IsRegistered (src ∷ srcs) r k =
    elim (register_all-IsRegistered srcs (register src r) k) [
      | inr (later, now, e, h, same) ↦ inr (later, now, rw (e, last_named), h, same)
      | inl (e, kept) ↦
          let ((now, here, same), others) = get-register src r in
          elim (Bool-cases (src.name == k)) [
            | inl own ↦
                inr (src, now, rw (e, last_named, own), kept ∙ rw own at (others k) ∙ here, same)
            | inr other ↦ inl (rw (e, last_named, other), kept ∙ rw other at (others k))
          ]
    ]

-- No name is twice in the list.
abbrev pub UniqueNames : List PipelineSource → Type 0
UniqueNames [] = Unit
UniqueNames (src ∷ srcs) = (last_named src.name srcs ≡ none) × UniqueNames srcs

last_named_unique :
    (srcs : List PipelineSource) (x : PipelineSource)
    → UniqueNames srcs
    → IsIn x srcs
    → last_named x.name srcs ≡ some x
last_named_unique [] x u m = elim m [ ]
last_named_unique (src ∷ srcs) x (fresh, u) (inr m) = rw (last_named_unique srcs x u m, last_named)
last_named_unique (src ∷ srcs) x (fresh, u) (inl e) =
    subst (λ y. last_named y.name (src ∷ srcs) ≡ some y) e
      (rw (fresh, last_named, eq_refl src.name))

register-registered :
    (srcs : List PipelineSource) (r : Registry) (x : PipelineSource)
    → UniqueNames srcs
    → IsIn x srcs
    → register x (register_all srcs r) ≡ register_all srcs r
register-registered srcs r x u m =
    let last = last_named_unique srcs x u m in
    elim (register_all-IsRegistered srcs r x.name) [
      | inl (e, kept) ↦ cc
      | inr (src, now, e, here, same) ↦
          let own : some src ≡ some x = sym e ∙ last in
          let its : src ≡ x = cc in
          register-stale x now (register_all srcs r) here (subst (IsSameSource now) its same)
    ]

register_all-registered :
    (srcs rest : List PipelineSource) (r : Registry)
    → UniqueNames srcs
    → ((x : PipelineSource) → IsIn x rest → IsIn x srcs)
    → register_all rest (register_all srcs r) ≡ register_all srcs r
unfolding register_all
register_all-registered srcs [] r u h = refl
register_all-registered srcs (x ∷ rest) r u h =
    ap (register_all rest) (register-registered srcs r x u (h x (inl refl)))
    ∙ register_all-registered srcs rest r u (λ y m. h y (inr m))

-- The registry has a source under the name of `src`, of its repository, branch and printed paths.
abbrev pub IsKnown : Registry → PipelineSource → Type 0
IsKnown r src = (now : PipelineSource) × (get src.name r ≡ some now) × IsSameSource now src

register_all-IsKnown :
    (srcs rest : List PipelineSource) (r : Registry)
    → UniqueNames srcs
    → ((x : PipelineSource) → IsIn x rest → IsIn x srcs)
    → All (IsKnown (register_all srcs r)) rest
register_all-IsKnown srcs [] r u h = tt
register_all-IsKnown srcs (x ∷ rest) r u h =
    let last = last_named_unique srcs x u (h x (inl refl)) in
    (
      elim (register_all-IsRegistered srcs r x.name) [
        | inl (e, kept) ↦ cc
        | inr (src, now, e, here, same) ↦
            let own : some src ≡ some x = sym e ∙ last in
            let its : src ≡ x = cc in (now, here, subst (IsSameSource now) its same)
      ],
      register_all-IsKnown srcs rest r u (λ y m. h y (inr m)),
    )

-- The discovery settles after one round: where the connectors find no name twice in a namespace, the first
-- round leaves, for each source that they find and whatever the registry held, one of its repository,
-- branch and printed paths under its name, and a second round on the state that the first left behind
-- changes nothing of the registry.
pub reconcile_twice-registry :
    (P : Platform) (conns : List (PipelineConnector P.State)) (nn : NamespacedName) (w : World P)
    → UniqueNames (found P nn.namespace conns w.api)
    → let first = (reconcile P conns nn w).1 in
      All (IsKnown first.registry) (found P nn.namespace conns w.api)
      × ((reconcile P conns nn first).1.registry ≡ first.registry)
reconcile_twice-registry P conns nn w u =
    let srcs = found P nn.namespace conns w.api in
    let first = with_found P nn.namespace srcs (gauges P nn.namespace conns w.api) w in
    let round = reconcile-with_found P conns nn in
    (
      subst (λ x. All (IsKnown x.1.registry) srcs) (sym (round w))
          (register_all-IsKnown srcs srcs w.registry u (λ x m. m)),
      ap (λ x. (reconcile P conns nn x.1).1.registry) (round w)
          ∙ ap (λ x. x.1.registry) (round first)
          ∙ register_all-registered srcs srcs w.registry u (λ x m. m)
          ∙ ap (λ x. x.1.registry) (sym (round w)),
    )

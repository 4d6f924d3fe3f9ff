-- ===== src/Operator/Sources.antt =====
-- The life of a source in a running process: found by a connector, kept, and analysed in every round.
use fluxgate_operator.Prelude.{
  List, [], ◌∷◌, IsIn, lookup, some, String, ◌==◌, eq_iff, ◌≡◌, sym, ap, subst, ◌∙◌, inl, inr,
  Bool-cases,
}
use fluxgate_operator.Connector.Types.{PipelineSource}
use fluxgate_operator.Platform.{Platform, Manager, NamespacedName}
use fluxgate_operator.Controller.Discovery.{Registry, get, list, register, register_all}
use fluxgate_operator.Controller.Discovery.Laws.{IsKeyed, get-register}
use fluxgate_operator.Controller.Discovery.Rounds.{found}
use fluxgate_operator.Controller.Analysis.Rounds.{NamesReports, IsEvaluated, reconcile-IsEvaluated}
use fluxgate_operator.Operator.{discovery, analysis, connectors, analyzer, reconcile}
use fluxgate_operator.Operator.System.{Request, System, IsOrder, served, Reach, start}
use fluxgate_operator.Operator.Registry.{
  Reach-IsKeyed, Reach-IsDiscovered, Reach-stays, reconcile-registry, lookup-register_all_stays,
}
use fluxgate_operator.Operator.Queue.{Reach-WasWatched}

lookup-keyed :
    (r : Registry) (k : String) (x : PipelineSource) → IsKeyed r → lookup k r ≡ some x → x.name ≡ k
unfolding lookup
lookup-keyed [] k x keyed h = cc
lookup-keyed ((j, y) ∷ r) k x (named, keyed) h = elim (Bool-cases (j == k)) [
  | inl own ↦
      let found_here : some y ≡ some x = rw (own, lookup) at h in
      let same : y ≡ x = cc in ap (λ z. z.name) (sym same) ∙ named ∙ (eq_iff j k).0 own
  | inr other ↦ lookup-keyed r k x keyed (rw (other, lookup) at h)
]

IsIn-list : (r : Registry) (k : String) (x : PipelineSource) → lookup k r ≡ some x → IsIn x (list r)
unfolding lookup list
IsIn-list [] k x h = cc
IsIn-list ((j, y) ∷ r) k x h = elim (Bool-cases (j == k)) [
  | inl own ↦
      let found_here : some y ≡ some x = rw (own, lookup) at h in let same : y ≡ x = cc in inl same
  | inr other ↦ inr (IsIn-list r k x (rw (other, lookup) at h))
]

-- What is registered is under its name afterwards, itself or one that is taken for the same.
lookup-register_all-IsIn :
    (srcs : List PipelineSource) (r : Registry) (x : PipelineSource)
    → IsIn x srcs
    → (y : PipelineSource) × (lookup x.name (register_all srcs r) ≡ some y)
unfolding register_all get
lookup-register_all-IsIn [] r x m = elim m [ ]
lookup-register_all-IsIn (src ∷ srcs) r x (inr m) =
    lookup-register_all-IsIn srcs (register src r) x m
lookup-register_all-IsIn (src ∷ srcs) r x (inl e) =
    let (now, h, same) = (get-register src r).0 in
    lookup-register_all_stays srcs (register src r) x.name now (rw (← e) h)

module _ (P : Platform) (token : String) (mgr : Manager) where
  -- Whatever the environment does: at every moment, the source that the registry has under a name bears
  -- that name, and a connector found it at a moment of the run, in a discovery over all namespaces.
  pub lookup-IsFound :
      {Env : P.State → P.State → Type 0} {s₀ : P.State} {t : System P}
      → Reach P token mgr Env (start P s₀) t
      → (k : String) (x : PipelineSource) → lookup k t.world.registry ≡ some x
      → (x.name ≡ k)
        × ((u : System P) × Reach P token mgr Env (start P s₀) u
            × IsIn x (found P "" (connectors P) u.world.api))
  lookup-IsFound r k x h =
      let (unique, keyed) = Reach-IsKeyed P token mgr r in
      let (u, nn, s, asked, m) = Reach-IsDiscovered P token mgr r k x h in
      let (v, q, everywhere) = Reach-WasWatched P token mgr s (discovery, nn) asked in
      (
        lookup-keyed _ k x keyed h,
        (u, s, subst (λ ns. IsIn x (found P ns (connectors P) u.world.api)) everywhere m),
      )

  -- A source that a discovery finds is analysed in every round of the analysis that follows, at any later
  -- moment and whatever happens between and to other sources: the registry then has a source of its name, and
  -- the round analyses that one: from the world that the sources before it leave, and the round goes on with
  -- those after it from the world that its analysis leaves. This analysis fails with an error, or it adds an
  -- event of its own that tells of the state of its report, after those that were there before the round. The API server is to return reports under the names asked for.
  pub found-IsEvaluated :
      {Env : P.State → P.State → Type 0} {s₀ : P.State} {t : System P} (s : System P)
      (nn mm : NamespacedName) (pick order : List PipelineSource → List PipelineSource)
      (rest : List Request) (src : PipelineSource)
      → NamesReports P
      → IsOrder order
      → Reach P token mgr Env (start P s₀) t
      → IsIn src (found P nn.namespace (connectors P) s.world.api)
      → Reach P token mgr Env (served P token mgr pick rest (discovery, nn) s.world) t
      → (now : PipelineSource) × (now.name ≡ src.name)
        × (lookup src.name t.world.registry ≡ some now)
        × IsEvaluated P
            (connectors P)
            (analyzer P token)
            (order (list t.world.registry))
            now
            t.world
            (reconcile P token mgr order analysis mm t.world).1
  unfolding reconcile
  found-IsEvaluated {t = t} s nn mm pick order rest src names o reached m later =
      let (first, h) = lookup-register_all-IsIn _ s.world.registry src m in
      let (now, there) =
        Reach-stays P token mgr later src.name first
          (rw (reconcile-registry P token mgr pick discovery nn s.world) h) in
      (
        now,
        lookup-keyed t.world.registry src.name now (Reach-IsKeyed P token mgr reached).1 there,
        there,
        (reconcile-IsEvaluated P (connectors P) (analyzer P token) order mm now t.world names
            ((o now (list t.world.registry)).1 (IsIn-list t.world.registry src.name now there))).1,
      )

-- ===== src/Operator/Registry.antt =====
-- The registry of a running process: its form, and where its sources come from.
use fluxgate_operator.Prelude.{
  All, true, List, [], ◌∷◌, ◌++◌, IsIn, IsIn-append_right, NodupKeys, lookup, some, String, ◌==◌,
  ◌≡◌, ◌⊎◌, refl, ap, inl, inr, Bool-cases,
}
use fluxgate_operator.Connector.Types.{PipelineSource}
use fluxgate_operator.Platform.{Platform, Manager, NamespacedName}
use fluxgate_operator.Platform.World.{World}
use fluxgate_operator.Controller.Discovery.{Registry, put, register, register_all}
use fluxgate_operator.Controller.Discovery.Laws.{
  IsKeyed, register-cases, register_all-IsKeyed, lookup-put,
}
use fluxgate_operator.Controller.Discovery.Rounds.{found, reconcile-with_found}
use fluxgate_operator.Controller.Analysis.Rounds as AnalysisRounds
use fluxgate_operator.Controller.Policy.Frame.{Keeps, ConnectorKeeps}
use fluxgate_operator.Controller.Policy.Frame.Rounds.{reconcile-Frame}
use fluxgate_operator.Operator.{
  Controller, discovery, analysis, report, policy, connectors, analyzer, reconcile,
}
use fluxgate_operator.Operator.System.{
  Request, System, Step, watch, serve, outside, Reach, here, next, start,
}

-- The connectors only patch objects.
pub connectors-keep :
    (P : Platform) (I : P.State → Type 0) → Keeps P I → All (ConnectorKeeps P I) (connectors P)
connectors-keep P I k = (
  λ s src h. (k.object s _ _ _ h, k.object s _ _ _ h),
  (
    (λ s src h. (k.object s _ _ _ h, k.object s _ _ _ h)),
    ((λ s src h. (k.object s _ _ _ h, k.object s _ _ _ h)), tt),
  ),
)

-- No fact at all is asked of the writes.
abbrev Any : {A : Type 0} → A → Type 0
Any a = Unit

Any-Keeps : {P : Platform} → Keeps P Any
Any-Keeps = record {
  report = λ s r h. tt;
  policy = λ s p h. tt;
  workload = λ s kind nn patch h. tt;
  object = λ s gvk nn patch h. tt;
  post = λ s url body h. tt;
}

-- A source of the registry after a registration was there before, or is one of those registered.
lookup-register_all :
    (srcs : List PipelineSource) (r : Registry) (k : String) (x : PipelineSource)
    → lookup k (register_all srcs r) ≡ some x
    → (lookup k r ≡ some x) ⊎ IsIn x srcs
unfolding register_all
lookup-register_all [] r k x h = inl h
lookup-register_all (src ∷ srcs) r k x h = elim (lookup-register_all srcs (register src r) k x h) [
  | inr later ↦ inr (inr later)
  | inl before ↦ elim (register-cases src r) [
    | inr (old, found, same, kept) ↦ inl (rw kept at before)
    | inl stored ↦ elim (Bool-cases (src.name == k)) [
      | inl own ↦
          let put_here : some src ≡ some x = rw (stored, lookup-put src r k, own) at before in
          let same : src ≡ x = cc in inr (inl same)
      | inr other ↦ inl (rw (stored, lookup-put src r k, other) at before)
    ]
  ]
]

-- A name that is in the registry stays in it.
pub lookup-register_all_stays :
    (srcs : List PipelineSource) (r : Registry) (k : String) (x : PipelineSource)
    → lookup k r ≡ some x
    → (y : PipelineSource) × (lookup k (register_all srcs r) ≡ some y)
unfolding register_all
lookup-register_all_stays [] r k x h = (x, h)
lookup-register_all_stays (src ∷ srcs) r k x h = elim (register-cases src r) [
  | inr (old, found, same, kept) ↦ rw kept (lookup-register_all_stays srcs r k x h)
  | inl stored ↦ rw stored (elim (Bool-cases (src.name == k)) [
    | inl own ↦ lookup-register_all_stays srcs (put src r) k src (rw (lookup-put src r k, own))
    | inr other ↦ lookup-register_all_stays srcs (put src r) k x (rw (lookup-put src r k, other) h)
  ])
]

module _ (P : Platform) (token : String) (mgr : Manager) where
  -- What a request does to the registry: a discovery registers what the connectors find in the namespace
  -- of the request, any other leaves it as it was.
  abbrev pub sources_of : Controller → NamespacedName → World P → List PipelineSource
  sources_of discovery nn w = found P nn.namespace (connectors P) w.api
  sources_of c nn w = []

  pub reconcile-registry :
      (order : List PipelineSource → List PipelineSource) (c : Controller) (nn : NamespacedName)
      (w : World P)
      → (reconcile P token mgr order c nn w).1.registry
        ≡ register_all (sources_of c nn w) w.registry
  unfolding reconcile register_all
  reconcile-registry order discovery nn w =
      ap (λ x. x.1.registry) (reconcile-with_found P (connectors P) nn w)
  reconcile-registry order analysis nn w =
      AnalysisRounds.reconcile-registry P (connectors P) (analyzer P token) order nn true w
  reconcile-registry order report nn w = refl
  reconcile-registry order policy nn w =
      (reconcile-Frame P Any Any-Keeps (connectors P) true (connectors-keep P Any Any-Keeps) nn w).0

  -- Wherever the process is: no name is twice in the registry, and each source is stored under its own.
  Step-registry :
      {Env : P.State → P.State → Type 0} {s t : System P}
      → Step P token mgr Env s t
      → ((srcs : List PipelineSource) × (t.world.registry ≡ register_all srcs s.world.registry))
  unfolding register_all
  Step-registry (watch r h) = ([], refl)
  Step-registry {s = s} (serve order pre post (c, nn) o e) =
      (sources_of c nn s.world, reconcile-registry order c nn s.world)
  Step-registry (outside a h) = ([], refl)

  pub Reach-IsKeyed :
      {Env : P.State → P.State → Type 0} {s₀ : P.State} {t : System P}
      → Reach P token mgr Env (start P s₀) t
      → NodupKeys t.world.registry × IsKeyed t.world.registry
  Reach-IsKeyed here = (tt, tt)
  Reach-IsKeyed (next {t} r step) =
      let (srcs, e) = Step-registry step in
      rw e (register_all-IsKeyed srcs t.world.registry (Reach-IsKeyed r))

  -- Where the source under a name comes from: at a moment of the run its connector found it, in the
  -- namespace of a request that was then in the queue.
  abbrev pub IsDiscovered : (P.State → P.State → Type 0) → System P → PipelineSource → Type 0
  IsDiscovered Env s x =
      (u : System P) × (nn : NamespacedName) × Reach P token mgr Env s u
      × IsIn (discovery, nn) u.queue
      × IsIn x (found P nn.namespace (connectors P) u.world.api)

  IsIn-at : (pre post : List Request) (r : Request) → IsIn r (pre ++ r ∷ post)
  IsIn-at pre post r = IsIn-append_right r pre (r ∷ post) (inl refl)

  served-IsDiscovered :
      {Env : P.State → P.State → Type 0} {s₀ s : System P}
      (order : List PipelineSource → List PipelineSource) (pre post : List Request) (c : Controller)
      (nn : NamespacedName) (k : String) (x : PipelineSource)
      → Reach P token mgr Env s₀ s
      → s.queue ≡ pre ++ (c, nn) ∷ post
      → IsIn x (sources_of c nn s.world)
      → IsDiscovered Env s₀ x
  served-IsDiscovered {s = s} order pre post discovery nn k x r e m =
      (s, nn, r, rw e (IsIn-at pre post (discovery, nn)), m)
  served-IsDiscovered order pre post analysis nn k x r e m = elim m [ ]
  served-IsDiscovered order pre post report nn k x r e m = elim m [ ]
  served-IsDiscovered order pre post policy nn k x r e m = elim m [ ]

  pub Reach-IsDiscovered :
      {Env : P.State → P.State → Type 0} {s₀ : P.State} {t : System P}
      → Reach P token mgr Env (start P s₀) t
      → (k : String) (x : PipelineSource) → lookup k t.world.registry ≡ some x
      → IsDiscovered Env (start P s₀) x
  unfolding lookup
  Reach-IsDiscovered here k x h = cc
  Reach-IsDiscovered (next r (watch q w)) k x h = Reach-IsDiscovered r k x h
  Reach-IsDiscovered (next r (outside a w)) k x h = Reach-IsDiscovered r k x h
  Reach-IsDiscovered (next {t} r (serve order pre post (c, nn) o e)) k x h =
      elim (lookup-register_all (sources_of c nn t.world) t.world.registry k x
        (rw (reconcile-registry order c nn t.world) at h)) [
          | inl before ↦ Reach-IsDiscovered r k x before
          | inr now ↦ served-IsDiscovered order pre post c nn k x r e now
        ]

  -- What is under a name later.
  pub Reach-stays :
      {Env : P.State → P.State → Type 0} {s t : System P}
      → Reach P token mgr Env s t
      → (k : String) (x : PipelineSource) → lookup k s.world.registry ≡ some x
      → (y : PipelineSource) × (lookup k t.world.registry ≡ some y)
  Reach-stays here k x h = (x, h)
  Reach-stays (next {t} r step) k x h =
      let (y, found) = Reach-stays r k x h in
      let (srcs, e) = Step-registry step in
      rw e (lookup-register_all_stays srcs t.world.registry k y found)

-- ===== src/Operator/Queue.antt =====
-- The requests of a running process: where they come from, which never end, and what never begins.
use fluxgate_operator.Prelude.{
  Bool, true, false, List, [], ◌∷◌, ◌++◌, push, IsIn, IsIn-append_left, IsIn-append_right,
  IsIn-append_cases, IsIn-middle, IsIn-middle_cases, String, ◌≡◌, ◌⊎◌, refl, ap, ◌∙◌, subst, inl,
  inr, Bool-cases, if◌then◌else◌,
}
use fluxgate_operator.Connector.Types.{PipelineSource}
use fluxgate_operator.Platform.{Platform, Manager, NamespacedName}
use fluxgate_operator.Platform.World.{World}
use fluxgate_operator.Controller.Policy.Select.{is_empty}
use fluxgate_operator.Controller.Discovery.{list}
use fluxgate_operator.Controller.Discovery.Rounds.{reconcile-with_found}
use fluxgate_operator.Controller.Analysis as AnalysisController
use fluxgate_operator.Operator.{
  Controller, discovery, analysis, report, policy, connectors, reconcile,
}
use fluxgate_operator.Operator.System.{
  Request, System, IsWatched, is_repeated, Step, watch, serve, outside, Reach, here, next, start,
}

-- What is left of the queue, and the request that was served if it is repeated.
abbrev after : Bool → List Request → Request → List Request
after again rest r = if again then push rest r else rest

after-IsIn :
    (again : Bool) (rest : List Request) (r x : Request)
    → IsIn x (after again rest r)
    → IsIn x rest ⊎ (r ≡ x)
after-IsIn true rest r x m = elim (IsIn-append_cases x rest (r ∷ []) m) [
  | inl left ↦ inl left
  | inr (inl e) ↦ inr e
  | inr (inr h) ↦ elim h [ ]
]
after-IsIn false rest r x m = inl m

IsIn-after :
    (again : Bool) (rest : List Request) (r x : Request) → IsIn x rest → IsIn x (after again rest r)
IsIn-after true rest r x m = IsIn-append_left x rest (r ∷ []) m
IsIn-after false rest r x m = m

module _ (P : Platform) (token : String) (mgr : Manager) where
  -- A request that is in the queue after a step was there before, or a watch names it in this step.
  pub Step-queue :
      {Env : P.State → P.State → Type 0} {s t : System P} (x : Request)
      → Step P token mgr Env s t
      → IsIn x t.queue
      → IsIn x s.queue ⊎ IsWatched P s.world.api x
  Step-queue {s = s} x (watch r h) m = elim (after-IsIn true s.queue r x m) [
    | inl left ↦ inl left
    | inr e ↦ inr (subst (IsWatched P s.world.api) e h)
  ]
  Step-queue {s = s} x (serve order pre post (c, nn) o e) m =
      let again = is_repeated (reconcile P token mgr order c nn s.world).0 in
      inl (
        rw e (elim (after-IsIn again (pre ++ post) (c, nn) x m) [
          | inl left ↦ IsIn-middle x (c, nn) pre post left
          | inr same ↦ IsIn-append_right x pre ((c, nn) ∷ post) (inl same)
        ]))
  Step-queue x (outside a h) m = inl m

  -- A request of the queue was named by a watch at a moment of the run.
  abbrev pub WasWatched : (P.State → P.State → Type 0) → System P → Request → Type 0
  WasWatched Env s x = (u : System P) × Reach P token mgr Env s u × IsWatched P u.world.api x

  pub Reach-WasWatched :
      {Env : P.State → P.State → Type 0} {s₀ : P.State} {t : System P}
      → Reach P token mgr Env (start P s₀) t
      → (x : Request) → IsIn x t.queue
      → WasWatched Env (start P s₀) x
  Reach-WasWatched here x m = elim m [ ]
  Reach-WasWatched (next {t} r step) x m = elim (Step-queue x step m) [
    | inl before ↦ Reach-WasWatched r x before
    | inr watched ↦ (t, r, watched)
  ]

  -- The controllers whose rounds ask for the next one, however they end.
  abbrev pub is_periodic : Controller → Bool
  is_periodic discovery = true
  is_periodic analysis = true
  is_periodic c = false

  periodic-is_repeated :
      (order : List PipelineSource → List PipelineSource) (c : Controller) (nn : NamespacedName)
      (w : World P)
      → is_periodic c ≡ true
      → is_repeated (reconcile P token mgr order c nn w).0 ≡ true
  unfolding reconcile AnalysisController.reconcile
  periodic-is_repeated order discovery nn w h =
      ap (λ x. is_repeated x.0) (reconcile-with_found P (connectors P) nn w)
  periodic-is_repeated order analysis nn w h =
      elim (Bool-cases (is_empty (order (list w.registry)))) [
        | inl e ↦ rw e refl
        | inr e ↦ rw e refl
      ]
  periodic-is_repeated order report nn w h = cc
  periodic-is_repeated order policy nn w h = cc

  -- Once asked for, the rounds of the discovery and of the analysis never end: a request for one of them
  -- that is in the queue is in the queue at every later moment, whatever the rounds meet with and whatever
  -- else is served.
  pub Reach-periodic :
      {Env : P.State → P.State → Type 0} {s t : System P}
      → Reach P token mgr Env s t
      → (c : Controller) (nn : NamespacedName) → is_periodic c ≡ true
      → IsIn (c, nn) s.queue
      → IsIn (c, nn) t.queue
  Reach-periodic here c nn h m = m
  Reach-periodic (next {t} r (watch q w)) c nn h m =
      IsIn-append_left (c, nn) t.queue (q ∷ []) (Reach-periodic r c nn h m)
  Reach-periodic (next r (outside a w)) c nn h m = Reach-periodic r c nn h m
  Reach-periodic (next {t} r (serve order pre post (d, mm) o e)) c nn h m =
      let again = is_repeated (reconcile P token mgr order d mm t.world).0 in
      elim (IsIn-middle_cases (c, nn) (d, mm) pre post (rw e at (Reach-periodic r c nn h m))) [
        | inr other ↦ IsIn-after again (pre ++ post) (d, mm) (c, nn) other
        | inl same ↦
            let periodic : is_periodic d ≡ true = ap (λ x. is_periodic x.0) same ∙ h in
            rw (periodic-is_repeated order d mm t.world periodic)
              (IsIn-append_right (c, nn) (pre ++ post) ((d, mm) ∷ []) (inl same))
      ]

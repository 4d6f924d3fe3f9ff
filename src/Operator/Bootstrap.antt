-- ===== src/Operator/Bootstrap.antt =====
-- A process in a cluster without reports.
use fluxgate_operator.Prelude.{
  true, List, ◌∷◌, IsIn, IsIn-append_right, Error, err, String, ◌≡◌, ◌⊎◌, refl, inl, inr, ap, subst,
  sym,
}
use fluxgate_operator.Connector.Types.{PipelineSource}
use fluxgate_operator.Platform.{Platform, Manager, NamespacedName}
use fluxgate_operator.Platform.World.{World}
use fluxgate_operator.Controller.Report as ReportController
use fluxgate_operator.Controller.Discovery.Rounds.{reconcile-with_found}
use fluxgate_operator.Controller.Policy.Frame.{Keeps}
use fluxgate_operator.Controller.Policy.Frame.Rounds.{reconcile-Frame}
use fluxgate_operator.Operator.{
  Controller, discovery, analysis, report, policy, connectors, reconcile,
}
use fluxgate_operator.Operator.System.{
  System, IsWatched, Step, watch, serve, outside, Reach, here, next, start,
}
use fluxgate_operator.Operator.Registry.{connectors-keep}
use fluxgate_operator.Operator.Queue.{Step-queue}

-- No name has a report.
abbrev pub HasNoReport : (P : Platform) → P.State → Type 0
HasNoReport P s = (nn : NamespacedName) → (e : Error) × (P.get_report s nn ≡ err e)

report-absent :
    (P : Platform) (nn : NamespacedName) (s : P.State)
    → HasNoReport P s
    → (ReportController.reconcile P nn s).1 ≡ s
unfolding ReportController.reconcile
report-absent P nn s none_there =
    let (e, h) = none_there nn in rw (h, ReportController.reconcile) refl

module _ (P : Platform) (token : String) (mgr : Manager) (k : Keeps P (HasNoReport P)) where
  -- Every controller but the analysis leaves a cluster without reports without them.
  reconcile-HasNoReport :
      (order : List PipelineSource → List PipelineSource) (c : Controller) (nn : NamespacedName)
      (w : World P)
      → HasNoReport P w.api
      → (c ≡ analysis) ⊎ HasNoReport P (reconcile P token mgr order c nn w).1.api
  unfolding reconcile
  reconcile-HasNoReport order discovery nn w h = inr (
      subst (HasNoReport P) (ap (λ x. x.1.api) (sym (reconcile-with_found P (connectors P) nn w)))
        h)
  reconcile-HasNoReport order analysis nn w h = inl refl
  reconcile-HasNoReport order report nn w h = inr (rw (report-absent P nn w.api h) h)
  reconcile-HasNoReport order policy nn w h = inr (
      (reconcile-Frame P (HasNoReport P) k (connectors P) true (connectors-keep P (HasNoReport P) k)
          nn w).2
        h)

  -- No report, and no request for an analysis.
  abbrev pub IsIdle : System P → Type 0
  IsIdle s = HasNoReport P s.world.api × ((nn : NamespacedName) → ¬ IsIn (analysis, nn) s.queue)

  unwatched : (s : P.State) (nn : NamespacedName) → HasNoReport P s → ¬ IsWatched P s (analysis, nn)
  unwatched s nn h (r, e) = let (x, g) = h nn in cc

  Step-HasNoReport :
      {Env : P.State → P.State → Type 0} {s t : System P}
      → ((a b : P.State) → Env a b → HasNoReport P a → HasNoReport P b)
      → Step P token mgr Env s t
      → IsIdle s
      → HasNoReport P t.world.api
  Step-HasNoReport env (watch r h) (n, i) = n
  Step-HasNoReport {s = s} env (serve order pre post (c, nn) o e) (n, i) =
      elim (reconcile-HasNoReport order c nn s.world n) [
        | inr kept ↦ kept
        | inl same ↦ absurd (
            i nn (
              rw (e, same)
                (IsIn-append_right (analysis, nn) pre ((analysis, nn) ∷ post) (inl refl))))
      ]
  Step-HasNoReport {s = s} env (outside a h) (n, i) = env s.world.api a h n

  Step-IsIdle :
      {Env : P.State → P.State → Type 0} {s t : System P}
      → ((a b : P.State) → Env a b → HasNoReport P a → HasNoReport P b)
      → Step P token mgr Env s t
      → IsIdle s
      → IsIdle t
  Step-IsIdle {s = s} env step (n, i) = (
    Step-HasNoReport env step (n, i),
    λ nn m. elim (Step-queue P token mgr (analysis, nn) step m) [
      | inl before ↦ i nn before
      | inr watched ↦ unwatched s.world.api nn n watched
    ],
  )

  -- The operator does not begin by itself. Where no write of the policy controller and of the connectors
  -- makes a report and nobody else makes one either: from a cluster without reports, no state of a run has
  -- a report or a request for an analysis, whatever is discovered, since the analysis is the only
  -- controller that creates reports and is called only for reports that are there.
  pub Reach-IsIdle :
      {Env : P.State → P.State → Type 0} {s₀ : P.State} {t : System P}
      → ((a b : P.State) → Env a b → HasNoReport P a → HasNoReport P b)
      → HasNoReport P s₀
      → Reach P token mgr Env (start P s₀) t
      → IsIdle t
  Reach-IsIdle env h here = (h, λ nn m. m)
  Reach-IsIdle env h (next r step) = Step-IsIdle env step (Reach-IsIdle env h r)

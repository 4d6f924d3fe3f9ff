-- ===== src/Operator/System.antt =====
-- The running process as a transition system: the watches and the requeues of controller-runtime around
-- the four reconcilers, and an environment that changes what lies outside the process. Each
-- reconciliation is one step; a write through the API returns a state that may hold what others did
-- meanwhile. The queue of controller-runtime merges equal requests and delays the repeated ones; here a
-- request may be there twice, and waits for any time.
use fluxgate_operator.Prelude.{
  Bool, true, List, [], ◌∷◌, ◌++◌, push, IsIn, Result, ok, err, pos, ltb_ℤ, ◌≡◌, if◌then◌else◌,
  String,
}
use fluxgate_operator.Api.{PipelineSecurityPolicy, PipelineSecurityReport}
use fluxgate_operator.Connector.Types.{PipelineSource}
use fluxgate_operator.Platform.{Platform, Manager, NamespacedName, CtrlResult}
use fluxgate_operator.Platform.World.{World}
use fluxgate_operator.Operator.{Controller, discovery, analysis, report, policy, initial, reconcile}

abbrev pub Request : Type 0
Request = Controller × NamespacedName

pub record System (P : Platform) : Type 0 where
  pub world : World P
  pub queue : List Request

-- `mgr.Start`: nothing is asked for yet.
abbrev pub start : (P : Platform) → P.State → System P
start P s = record { world = initial P s; queue = [] }

-- What the watch of a controller can name, by the kind that its `SetupWithManager` gives to `For`: a
-- Namespace, which lies in no namespace, for the discovery; a report that is there; a policy that is there.
-- The event of a deletion is a watch just before the step outside that deletes: the request waits in the
-- queue, and is served once its object is gone.
abbrev pub IsWatched : (P : Platform) → P.State → Request → Type 0
IsWatched P s (discovery, nn) = nn.namespace ≡ ""
IsWatched P s (analysis, nn) = (r : PipelineSecurityReport) × (P.get_report s nn ≡ ok r)
IsWatched P s (report, nn) = (r : PipelineSecurityReport) × (P.get_report s nn ≡ ok r)
IsWatched P s (policy, nn) = (p : PipelineSecurityPolicy) × (P.get_policy s nn ≡ ok p)

-- Whether controller-runtime repeats a request: after an error, or after the delay that was asked for.
abbrev pub is_repeated : Result CtrlResult → Bool
is_repeated (err e) = true
is_repeated (ok r) = ltb_ℤ (pos 0) r.requeue_after

-- Go ranges over a map in any order, and over all of it.
abbrev pub IsOrder : (List PipelineSource → List PipelineSource) → Type 0
IsOrder order =
    (src : PipelineSource) (srcs : List PipelineSource)
    → (IsIn src (order srcs) → IsIn src srcs) × (IsIn src srcs → IsIn src (order srcs))

module _ (P : Platform) (github_token : String) (mgr : Manager) where
  -- One request of the queue is served, and put back if it is to be repeated.
  abbrev pub served :
      (List PipelineSource → List PipelineSource) → List Request → Request → World P → System P
  served order rest (c, nn) w =
      let (answer, w') = reconcile P github_token mgr order c nn w in
      record { world = w'; queue = if is_repeated answer then push rest (c, nn) else rest }

  -- `Env` is what others may do to the state outside.
  pub data Step (Env : P.State → P.State → Type 0) (s : System P) : System P → Type 0 where
    watch :
        (r : Request) → IsWatched P s.world.api r → Step Env s (record s { queue = push s.queue r })
    serve :
        (order : List PipelineSource → List PipelineSource) (pre post : List Request) (r : Request)
        → IsOrder order
        → s.queue ≡ pre ++ r ∷ post
        → Step Env s (served order (pre ++ post) r s.world)
    outside :
        (a : P.State)
        → Env s.world.api a
        → Step Env s (record s { world = record s.world { api = a } })

  pub data Reach (Env : P.State → P.State → Type 0) (s : System P) : System P → Type 0 where
    here : Reach Env s s
    next : {t u : System P} → Reach Env s t → Step Env t u → Reach Env s u

-- ===== src/Controller/Policy/Frame/Sync.antt =====
-- The suspension and the restoration of a sync, as steps that keep the registry, the cache and what
-- the writes keep.
use fluxgate_operator.Prelude.{
  Bool, false, ◌||◌, List, [], ◌∷◌, All, Result-cases, Option-cases, Bool-cases, some, lookup,
  String, ◌==◌, text_at, ℤ, ltb_ℤ, time_sub, ◌≡◌, refl, inl, inr, subst,
}
use fluxgate_operator.Api.{EnforcementAction, PipelineSecurityReport}
use fluxgate_operator.Connector.Types.{PipelineConnector, PipelineSource}
use fluxgate_operator.Platform.{Platform}
use fluxgate_operator.Platform.World.{World}
use fluxgate_operator.Controller.Policy.Select.{label_source_kind, label_source_name}
use fluxgate_operator.Controller.Policy.Suspend.{
  annotate, annotation_first_detected, serves, find_connector, suspend_by, suspend_now, start_grace,
  within_grace, execute_suspend_sync,
}
use fluxgate_operator.Controller.Policy.Restore.{
  enforcement_keys, remove_keys, with_annotations, resume_by, resume_sync, resume_and_unlabel,
  update_and_restore, restore_compliance,
}
use fluxgate_operator.Controller.Policy.Frame.{
  Keeps, ConnectorKeeps, Frame, Frame-refl, Frame-trans, unlabel_all-keeps,
}

find_connector-All :
    (P : Platform) (Q : PipelineConnector P.State → Type 0) (kind : String)
    (cs : List (PipelineConnector P.State)) (c : PipelineConnector P.State)
    → All Q cs
    → find_connector P kind cs ≡ some c
    → Q c
unfolding find_connector
find_connector-All P Q kind [] c q h = cc
find_connector-All P Q kind (x ∷ cs) c (qx, q) h = elim (Bool-cases (serves kind x.name)) [
  | inl on ↦
      let found : some x ≡ some c = rw (on, find_connector) at h in
      let same : x ≡ c = cc in subst Q same qx
  | inr off ↦ find_connector-All P Q kind cs c q (rw (off, find_connector) at h)
]

module _ (P : Platform) (I : P.State → Type 0) (k : Keeps P I)
    (cs : List (PipelineConnector P.State)) (rec : Bool) (kcs : All (ConnectorKeeps P I) cs) where
  suspend_by-Frame :
      (c : PipelineConnector P.State) (name : String) (src : PipelineSource)
      (r : PipelineSecurityReport) (w : World P)
      → ConnectorKeeps P I c
      → Frame P I w (suspend_by P cs rec c name src r w).1
  unfolding suspend_by
  suspend_by-Frame c name src r w kc = elim (Result-cases (c.suspend w.api src).0) [
    | inl (e, h) ↦ rw (h, suspend_by) (refl, refl, λ i. (kc w.api src i).0)
    | inr (x, h) ↦ elim (Bool-cases rec) [
      | inl on ↦ rw (h, suspend_by, on) (refl, refl, λ i. (kc w.api src i).0)
      | inr off ↦ rw (h, suspend_by, off) (refl, refl, λ i. (kc w.api src i).0)
    ]
  ]

  resume_by-Frame :
      (c : PipelineConnector P.State) (name : String) (src : PipelineSource)
      (r : PipelineSecurityReport) (w : World P)
      → ConnectorKeeps P I c
      → Frame P I w (resume_by P cs rec c name src r w)
  unfolding resume_by
  resume_by-Frame c name src r w kc = elim (Result-cases (c.resume w.api src).0) [
    | inl (e, h) ↦ rw (h, resume_by) (refl, refl, λ i. (kc w.api src i).1)
    | inr (x, h) ↦ elim (Bool-cases rec) [
      | inl on ↦ rw (h, resume_by, on) (refl, refl, λ i. (kc w.api src i).1)
      | inr off ↦ rw (h, resume_by, off) (refl, refl, λ i. (kc w.api src i).1)
    ]
  ]

  suspend_now-Frame :
      (r : PipelineSecurityReport) (w : World P) → Frame P I w (suspend_now P cs rec r w).1
  unfolding suspend_now
  suspend_now-Frame r w =
      let name = text_at label_source_name r.meta.labels in
      let kind = text_at label_source_kind r.meta.labels in
      elim (Bool-cases (name == "" || kind == "")) [
        | inl bad ↦ rw bad (Frame-refl P I w)
        | inr good ↦ elim (Option-cases (lookup name w.registry)) [
          | inl missing ↦ rw (good, missing, suspend_now) (Frame-refl P I w)
          | inr (src, found) ↦ elim (Option-cases (find_connector P kind cs)) [
            | inl nobody ↦ rw (good, found, suspend_now, nobody) (Frame-refl P I w)
            | inr (c, serving) ↦
                rw (good, found, suspend_now, serving)
                  (suspend_by-Frame c name src r w (find_connector-All P _ kind cs c kcs serving))
          ]
        ]
      ]

  resume_sync-Frame :
      (r : PipelineSecurityReport) (w : World P) → Frame P I w (resume_sync P cs rec r w)
  unfolding resume_sync
  resume_sync-Frame r w =
      let name = text_at label_source_name r.meta.labels in
      let kind = text_at label_source_kind r.meta.labels in
      elim (Bool-cases (name == "" || kind == "")) [
        | inl bad ↦ rw bad (Frame-refl P I w)
        | inr good ↦ elim (Option-cases (lookup name w.registry)) [
          | inl missing ↦ rw (good, missing, resume_sync) (Frame-refl P I w)
          | inr (src, found) ↦ elim (Option-cases (find_connector P kind cs)) [
            | inl nobody ↦ rw (good, found, resume_sync, nobody) (Frame-refl P I w)
            | inr (c, serving) ↦
                rw (good, found, resume_sync, serving)
                  (resume_by-Frame c name src r w (find_connector-All P _ kind cs c kcs serving))
          ]
        ]
      ]

  start_grace-Frame :
      (r : PipelineSecurityReport) (w : World P) → Frame P I w (start_grace P cs rec r w).2
  unfolding start_grace
  start_grace-Frame r w =
      let r' = annotate annotation_first_detected (P.format_rfc3339 (P.now w.api)) r in
      elim (Result-cases (P.update_report w.api r').0) [
        | inl (e, h) ↦ rw (h, start_grace) (refl, refl, k.report w.api r')
        | inr (x, h) ↦ rw (h, start_grace) (refl, refl, k.report w.api r')
      ]

  within_grace-Frame :
      (grace : ℤ) (r : PipelineSecurityReport) (w : World P)
      → Frame P I w (within_grace P cs rec grace r w).2
  unfolding within_grace
  within_grace-Frame grace r w =
      let first = text_at annotation_first_detected r.meta.annotations in
      elim (Bool-cases (first == "")) [
        | inl new ↦ rw new (start_grace-Frame r w)
        | inr old ↦ elim (Result-cases (P.parse_rfc3339 first)) [
          | inl (e, h) ↦ rw (old, h, within_grace) (Frame-refl P I w)
          | inr (t, h) ↦ elim (Bool-cases (ltb_ℤ (time_sub (P.now w.api) t) grace)) [
            | inl waiting ↦ rw (old, h, within_grace, waiting) (Frame-refl P I w)
            | inr over ↦ rw (old, h, within_grace, over) (suspend_now-Frame r w)
          ]
        ]
      ]

  pub execute_suspend_sync-Frame :
      (a : EnforcementAction) (r : PipelineSecurityReport) (w : World P)
      → Frame P I w (execute_suspend_sync P cs rec a r w).2
  unfolding execute_suspend_sync
  execute_suspend_sync-Frame a r w = elim (Bool-cases (a.grace_period == "")) [
    | inl now ↦ rw now (suspend_now-Frame r w)
    | inr later ↦ elim (Result-cases (P.parse_duration a.grace_period)) [
      | inl (e, h) ↦ rw (later, h, execute_suspend_sync) (Frame-refl P I w)
      | inr (g, h) ↦ rw (later, h, execute_suspend_sync) (within_grace-Frame g r w)
    ]
  ]

  resume_and_unlabel-Frame :
      (r : PipelineSecurityReport) (w : World P) → Frame P I w (resume_and_unlabel P cs rec r w)
  unfolding resume_and_unlabel
  resume_and_unlabel-Frame r w =
      let (reg, cache, kept) = resume_sync-Frame r w in
      (reg, cache, λ i. unlabel_all-keeps P I k r.status.correlated_workloads _ (kept i))

  update_and_restore-Frame :
      (r : PipelineSecurityReport) (w : World P) → Frame P I w (update_and_restore P cs rec r w).2
  unfolding update_and_restore
  update_and_restore-Frame r w = elim (Result-cases (P.update_report w.api r).0) [
    | inl (e, h) ↦ rw (h, update_and_restore) (refl, refl, k.report w.api r)
    | inr (x, h) ↦
        let written = record w { api = (P.update_report w.api r).1 } in
        rw (h, update_and_restore)
          (Frame-trans P I w written (resume_and_unlabel P cs rec r written)
            (refl, refl, k.report w.api r) (resume_and_unlabel-Frame r written))
  ]

  pub restore_compliance-Frame :
      (r : PipelineSecurityReport) (w : World P) → Frame P I w (restore_compliance P cs rec r w).2
  unfolding restore_compliance
  restore_compliance-Frame r w =
      let (left, updated) = remove_keys enforcement_keys r.meta.annotations false in
      let r' = with_annotations left r in
      elim (Bool-cases updated) [
        | inl on ↦ rw on (update_and_restore-Frame r' w)
        | inr off ↦ rw off (resume_and_unlabel-Frame r' w)
      ]

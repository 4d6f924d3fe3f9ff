-- ===== src/Controller/Policy/Suspend/Laws.antt =====
-- When a sync is suspended, and when it is not.
use mathlib.Core.Option.{some-injective}
use fluxgate_operator.Prelude.{
  Bool, true, false, List, [], ◌∷◌, lookup, text_at, text_at-insert_self, some, Option-cases, ok,
  String, eqb_of_ne, ℤ, ltb_ℤ, time_sub, if◌then◌else◌, ◌≡◌, ◌≢◌, ap, ◌∙◌, inl, inr, arith,
  Bool-cases,
}
use fluxgate_operator.Api.{EnforcementAction, PipelineSecurityReport}
use fluxgate_operator.Connector.Types.{PipelineConnector, PipelineSource}
use fluxgate_operator.Platform.{Platform}
use fluxgate_operator.Platform.World.{World}
use fluxgate_operator.Controller.Policy.Select.{label_source_kind, label_source_name}
use fluxgate_operator.Controller.Policy.Suspend.{
  annotation_first_detected, annotate, serves, find_connector, suspend_by, suspend_now, start_grace,
  within_grace, keeping, execute_suspend_sync,
}

module _ (P : Platform) (cs : List (PipelineConnector P.State)) (rec : Bool) where
  -- With a grace period that parses, the marks decide.
  execute_suspend_sync-parsed :
      (action : EnforcementAction) (r : PipelineSecurityReport) (w : World P) (grace : ℤ)
      → action.grace_period ≢ ""
      → P.parse_duration action.grace_period ≡ ok grace
      → execute_suspend_sync P cs rec action r w ≡ within_grace P cs rec grace r w
  unfolding execute_suspend_sync
  execute_suspend_sync-parsed action r w grace has parsed =
      rw (eqb_of_ne action.grace_period "" has, parsed)

  -- While the grace period of a report runs, a suspension that is asked for does nothing: no error, the
  -- same report, and nothing outside or inside the process is changed.
  execute_suspend_sync-within_grace :
      (action : EnforcementAction) (r : PipelineSecurityReport) (w : World P) (grace detected : ℤ)
      → action.grace_period ≢ ""
      → P.parse_duration action.grace_period ≡ ok grace
      → text_at annotation_first_detected r.meta.annotations ≢ ""
      → P.parse_rfc3339 (text_at annotation_first_detected r.meta.annotations) ≡ ok detected
      → ltb_ℤ (time_sub (P.now w.api) detected) grace ≡ true
      → execute_suspend_sync P cs rec action r w ≡ (ok tt, r, w)
  unfolding within_grace
  execute_suspend_sync-within_grace action r w grace detected has parsed marked read early =
      execute_suspend_sync-parsed action r w grace has parsed
      ∙ rw (eqb_of_ne _ "" marked, read, early)

  -- Once the grace period is over, the sync is suspended as it is without one.
  within_grace-over :
      (r : PipelineSecurityReport) (w : World P) (grace detected : ℤ)
      → text_at annotation_first_detected r.meta.annotations ≢ ""
      → P.parse_rfc3339 (text_at annotation_first_detected r.meta.annotations) ≡ ok detected
      → ltb_ℤ (time_sub (P.now w.api) detected) grace ≡ false
      → within_grace P cs rec grace r w ≡ keeping P cs rec r (suspend_now P cs rec r w)
  unfolding within_grace
  within_grace-over r w grace detected marked read late = rw (eqb_of_ne _ "" marked, read, late)

  within_grace-start :
      (r : PipelineSecurityReport) (w : World P) (grace : ℤ)
      → text_at annotation_first_detected r.meta.annotations ≡ ""
      → within_grace P cs rec grace r w ≡ start_grace P cs rec r w
  unfolding within_grace
  within_grace-start r w grace unmarked = rw (unmarked)

  start_grace-report :
      (r : PipelineSecurityReport) (w : World P)
      → (start_grace P cs rec r w).1
        ≡ annotate annotation_first_detected (P.format_rfc3339 (P.now w.api)) r
  unfolding start_grace
  start_grace-report r w = ground arith

  start_grace-world :
      (r : PipelineSecurityReport) (w : World P)
      → (start_grace P cs rec r w).2 ≡ record w {
        api =
            (P.update_report w.api
              (annotate annotation_first_detected (P.format_rfc3339 (P.now w.api)) r)).1;
      }
  unfolding start_grace
  start_grace-world r w = ground arith

  find_connector-serves :
      (kind : String) (ds : List (PipelineConnector P.State)) (c : PipelineConnector P.State)
      → find_connector P kind ds ≡ some c
      → serves kind c.name ≡ true
  unfolding find_connector
  find_connector-serves kind [] c h = cc
  find_connector-serves kind (d ∷ ds) c h = elim (Bool-cases (serves kind d.name)) [
    | inl yes_it ↦ rw (← some-injective d c (rw yes_it at h)) yes_it
    | inr not_it ↦ find_connector-serves kind ds c (rw not_it at h)
  ]

  suspend_by-ok :
      (conn : PipelineConnector P.State) (name : String) (src : PipelineSource)
      (r : PipelineSecurityReport) (w : World P)
      → (suspend_by P cs rec conn name src r w).0 ≡ ok tt
      → (conn.suspend w.api src).0 ≡ ok tt
  unfolding suspend_by
  suspend_by-ok conn name src r w h = ground arith

  -- A suspension that reports no error has called the connector that serves the report's source kind,
  -- on the source that the registry has under the report's source name, and that call reported none.
  pub suspend_now-ok :
      (r : PipelineSecurityReport) (w : World P)
      → (suspend_now P cs rec r w).0 ≡ ok tt
      → (src : PipelineSource) × (conn : PipelineConnector P.State) × (lookup
            (text_at label_source_name r.meta.labels)
            w.registry
          ≡ some src)
        × (serves (text_at label_source_kind r.meta.labels) conn.name ≡ true)
        × ((conn.suspend w.api src).0 ≡ ok tt)
  unfolding suspend_now
  suspend_now-ok r w h =
      elim (Option-cases (lookup (text_at label_source_name r.meta.labels) w.registry)) [
        | inl missing ↦ absurd (ground arith)
        | inr (src, found) ↦
            elim (Option-cases (find_connector P (text_at label_source_kind r.meta.labels) cs)) [
              | inl none_serves ↦ absurd (ground arith)
              | inr (conn, chosen) ↦ (
                src,
                conn,
                found,
                find_connector-serves _ cs conn chosen,
                suspend_by-ok conn (text_at label_source_name r.meta.labels) src r w (ground arith),
              )
            ]
      ]

module _ (P : Platform) (cs : List (PipelineConnector P.State)) (rec : Bool) where
  -- A grace period over its whole run. On a report without the first-detected mark the action calls no
  -- connector: whatever the connectors are, it only updates the report with the mark, the time of the
  -- call. On the report that it leaves, and in any other world: while less than the grace
  -- period has passed since the marked time, nothing is done and there is no error; from then on the
  -- action does what it does without a grace period.
  pub execute_suspend_sync-timeline :
      (action : EnforcementAction) (r : PipelineSecurityReport) (w v : World P) (grace detected : ℤ)
      → action.grace_period ≢ ""
      → P.parse_duration action.grace_period ≡ ok grace
      → text_at annotation_first_detected r.meta.annotations ≡ ""
      → P.format_rfc3339 (P.now w.api) ≢ ""
      → P.parse_rfc3339 (P.format_rfc3339 (P.now w.api)) ≡ ok detected
      → let marked = annotate annotation_first_detected (P.format_rfc3339 (P.now w.api)) r in
        ((execute_suspend_sync P cs rec action r w).1 ≡ marked)
        × ((execute_suspend_sync P cs rec action r w).2
            ≡ record w { api = (P.update_report w.api marked).1 })
        × (execute_suspend_sync P cs rec action marked v ≡ (
            if ltb_ℤ (time_sub (P.now v.api) detected) grace
            then (ok tt, marked, v)
            else (let (answer, v') = suspend_now P cs rec marked v in (answer, marked, v'))))
  execute_suspend_sync-timeline action r w v grace detected has parsed unmarked stamped read =
      let time = P.format_rfc3339 (P.now w.api) in
      let marked = annotate annotation_first_detected time r in
      let mark = text_at-insert_self annotation_first_detected time r.meta.annotations in
      let first =
        execute_suspend_sync-parsed P cs rec action r w grace has parsed
        ∙ within_grace-start P cs rec r w grace unmarked in
      (
        ap (λ x. x.1) first ∙ start_grace-report P cs rec r w,
        ap (λ x. x.2) first ∙ start_grace-world P cs rec r w,
        elim (Bool-cases (ltb_ℤ (time_sub (P.now v.api) detected) grace)) [
          | inl early ↦
              execute_suspend_sync-within_grace P cs rec action marked v grace detected has parsed
                (rw mark stamped) (rw mark read) early
              ∙ rw early
          | inr late ↦
              execute_suspend_sync-parsed P cs rec action marked v grace has parsed
              ∙ within_grace-over P cs rec marked v grace detected (rw mark stamped) (rw mark read)
                  late
              ∙ rw late
        ],
      )

-- ===== src/Controller/Policy/Restore/Laws.antt =====
-- What `restoreCompliance` removes, and what it sends of that.
use fluxgate_operator.Prelude.{
  Bool, true, false, List, [], ◌∷◌, any, All, Dict, lookup, erase, lookup-erase, none, some,
  Option-cases, Result, Result-cases, Error, ok, err, ◌⊎◌, String, ◌==◌, eq_iff, if◌then◌else◌, ◌≡◌,
  ◌≢◌, refl, ◌∙◌, inl, inr, arith,
}
use fluxgate_operator.Api.{PipelineSecurityReport}
use fluxgate_operator.Connector.Types.{PipelineConnector}
use fluxgate_operator.Platform.{Platform}
use fluxgate_operator.Platform.World.{World}
use fluxgate_operator.Controller.Policy.Select.Laws.{Any}
use fluxgate_operator.Controller.Policy.Restore.{
  enforcement_keys, remove_keys, with_annotations, resume_and_unlabel, update_and_restore,
  restore_compliance,
}

abbrev pub is_one_of : List String → String → Bool
is_one_of keys k = any (λ key. key == k) keys

remove_keys-absent :
    (key : String) (keys : List String) (m : Dict String) (u : Bool)
    → lookup key m ≡ none
    → remove_keys (key ∷ keys) m u ≡ remove_keys keys m u
unfolding remove_keys
remove_keys-absent key keys m u absent = rw (absent, remove_keys)

remove_keys-present :
    (key v : String) (keys : List String) (m : Dict String) (u : Bool)
    → lookup key m ≡ some v
    → remove_keys (key ∷ keys) m u ≡ remove_keys keys (erase key m) true
unfolding remove_keys
remove_keys-present key v keys m u present = rw (present, remove_keys)

lookup-remove_keys :
    (keys : List String) (m : Dict String) (u : Bool) (k : String)
    → lookup k (remove_keys keys m u).0 ≡ (if is_one_of keys k then none else lookup k m)
lookup-remove_keys [] m u k = unfold remove_keys in refl
lookup-remove_keys (key ∷ keys) m u k = elim (Option-cases (lookup key m)) [
  | inl absent ↦
      rw (remove_keys-absent key keys m u absent, lookup-remove_keys keys m u k)
        (ground (arith, eq_iff key k))
  | inr (v, present) ↦
      rw
        (
          remove_keys-present key v keys m u present,
          lookup-remove_keys keys (erase key m) true k,
          lookup-erase key k m,
        )
        (ground arith)
]

-- Once the flag is set it stays, and a flag that was never set means that nothing was there.
remove_keys-true : (keys : List String) (m : Dict String) → (remove_keys keys m true).1 ≡ true
unfolding remove_keys
remove_keys-true [] m = refl
remove_keys-true (key ∷ keys) m =
    ground (arith, remove_keys-true keys m, remove_keys-true keys (erase key m))

remove_keys-false :
    (keys : List String) (m : Dict String)
    → (remove_keys keys m false).1 ≡ false
    → remove_keys keys m false ≡ (m, false)
remove_keys-false [] m h = unfold remove_keys in refl
remove_keys-false (key ∷ keys) m h = elim (Option-cases (lookup key m)) [
  | inl absent ↦
      let same = remove_keys-absent key keys m false absent in
      same ∙ remove_keys-false keys m (rw same at h)
  | inr (v, present) ↦ cc (
    rw (remove_keys-present key v keys m false present) at h,
    remove_keys-true keys (erase key m),
  )
]

remove_keys-none :
    (keys : List String) (m : Dict String)
    → All (λ key. lookup key m ≡ none) keys
    → remove_keys keys m false ≡ (m, false)
remove_keys-none [] m h = unfold remove_keys in refl
remove_keys-none (key ∷ keys) m (absent, h) =
    remove_keys-absent key keys m false absent ∙ remove_keys-none keys m h

-- Nothing was there and the flag is not set, or one of the keys was there and it is set.
remove_keys-cases :
    (keys : List String) (m : Dict String)
    → (All (λ key. lookup key m ≡ none) keys × ((remove_keys keys m false).1 ≡ false))
      ⊎ (Any (λ key. lookup key m ≢ none) keys × ((remove_keys keys m false).1 ≡ true))
remove_keys-cases [] m = unfold remove_keys in inl (tt, refl)
remove_keys-cases (key ∷ keys) m = elim (Option-cases (lookup key m)) [
  | inl absent ↦
      let same = remove_keys-absent key keys m false absent in
      elim (remove_keys-cases keys m) [
        | inl (clean, unset) ↦ inl ((absent, clean), rw same unset)
        | inr (marks, flag) ↦ inr (inr marks, rw same flag)
      ]
  | inr (v, present) ↦ inr (
    inl (λ h. cc),
    rw (remove_keys-present key v keys m false present) (remove_keys-true keys (erase key m)),
  )
]

module _ (P : Platform) (cs : List (PipelineConnector P.State)) (rec : Bool) where
  restore_compliance-report :
      (r : PipelineSecurityReport) (w : World P)
      → (restore_compliance P cs rec r w).1
        ≡ with_annotations (remove_keys enforcement_keys r.meta.annotations false).0 r
  unfolding restore_compliance update_and_restore
  restore_compliance-report r w = ground arith

  restore_compliance-marked :
      (r : PipelineSecurityReport) (w : World P)
      → (remove_keys enforcement_keys r.meta.annotations false).1 ≡ true
      → restore_compliance P cs rec r w
        ≡ update_and_restore P cs rec
            (with_annotations (remove_keys enforcement_keys r.meta.annotations false).0 r)
            w
  unfolding restore_compliance
  restore_compliance-marked r w marked = rw marked refl

  restore_compliance-unchanged :
      (r : PipelineSecurityReport) (w : World P)
      → (remove_keys enforcement_keys r.meta.annotations false).1 ≡ false
      → restore_compliance P cs rec r w ≡ (ok tt, r, resume_and_unlabel P cs rec r w)
  unfolding restore_compliance
  restore_compliance-unchanged r w clean =
      rw (remove_keys-false enforcement_keys r.meta.annotations clean)

  update_and_restore-report :
      (r : PipelineSecurityReport) (w : World P) → (update_and_restore P cs rec r w).1 ≡ r
  unfolding update_and_restore
  update_and_restore-report r w = ground arith

  -- What an update of a restored report leads to: the report is sent once, and what follows is done where
  -- the API server accepts it.
  abbrev pub IsUpdated : PipelineSecurityReport → World P → Result (Unit {0}) × World P → Type 0
  IsUpdated r w x =
      let (answer, s) = P.update_report w.api r in
      let w' : World P = record w { api = s } in
      ((e : Error) × (answer ≡ err e) × (x.0 ≢ ok tt) × (x.1 ≡ w'))
      ⊎ ((answer ≡ ok tt) × (x.0 ≡ ok tt) × (x.1 ≡ resume_and_unlabel P cs rec r w'))

  update_and_restore-IsUpdated :
      (r : PipelineSecurityReport) (w : World P)
      → let x = update_and_restore P cs rec r w in IsUpdated r w (x.0, x.2)
  unfolding update_and_restore
  update_and_restore-IsUpdated r w = elim (Result-cases (P.update_report w.api r).0) [
    | inl (e, refused) ↦ inl (
      e,
      refused,
      rw (refused, update_and_restore) (λ h. cc),
      rw (refused, update_and_restore) refl,
    )
    | inr (tt, accepted) ↦
        inr
          (accepted, rw (accepted, update_and_restore) refl, rw (accepted, update_and_restore) refl)
  ]

  -- A restored report has none of the three annotations that enforcement adds, and every other
  -- annotation, its labels, its name and its status as they were. Where it had none of the three, nothing
  -- is sent for it; where it had one, it is sent to the API server as it now is, and an error of that is
  -- returned and ends the restoration. Else the restoration goes on with the sync and the workloads.
  pub restore_compliance-annotations :
      (r : PipelineSecurityReport) (w : World P)
      → let x = restore_compliance P cs rec r w in
        let r' = x.1 in
        ((k : String)
          → lookup k r'.meta.annotations
            ≡ (if is_one_of enforcement_keys k then none else lookup k r.meta.annotations))
        × (r'.meta.labels ≡ r.meta.labels)
        × (r'.meta.name ≡ r.meta.name)
        × (r'.meta.namespace ≡ r.meta.namespace)
        × (r'.status ≡ r.status)
        × ((All (λ key. lookup key r.meta.annotations ≡ none) enforcement_keys
              × (x.0 ≡ ok tt)
              × (x.2 ≡ resume_and_unlabel P cs rec r' w))
            ⊎ (Any (λ key. lookup key r.meta.annotations ≢ none) enforcement_keys
                × IsUpdated r' w (x.0, x.2)))
  restore_compliance-annotations r w =
      let m = r.meta.annotations in
      let same = restore_compliance-report r w in
      let shown = lookup-remove_keys enforcement_keys m false in
      elim (remove_keys-cases enforcement_keys m) [
        | inl (clean, unmarked) ↦
            let whole = restore_compliance-unchanged r w unmarked in
            rw whole (
              rw (remove_keys-false enforcement_keys m unmarked) at shown,
              refl,
              refl,
              refl,
              refl,
              inl (clean, refl, refl),
            )
        | inr (marks, marked) ↦
            let r' = with_annotations (remove_keys enforcement_keys m false).0 r in
            let sent = update_and_restore-IsUpdated r' w in
            rw (restore_compliance-marked r w marked, update_and_restore-report r' w)
              (shown, refl, refl, refl, refl, inr (marks, sent))
      ]

  pub restore_compliance-clean :
      (r : PipelineSecurityReport) (w : World P)
      → All (λ key. lookup key r.meta.annotations ≡ none) enforcement_keys
      → restore_compliance P cs rec r w ≡ (ok tt, r, resume_and_unlabel P cs rec r w)
  unfolding restore_compliance
  restore_compliance-clean r w clean =
      rw (remove_keys-none enforcement_keys r.meta.annotations clean)

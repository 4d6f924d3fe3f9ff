-- ===== src/Controller/Policy/Thresholds/Laws.antt =====
-- The violation level against its reasons, and the triggers that it meets.
use Prim.Native.Nat.{max}
use fluxgate_operator.Prelude.{
  Bool, true, false, ◌&&◌, ℕ, ◌≤◌, any, lookup, none, some, String, ◌==◌, eq_iff, ltb_ℤ, ◌≤ℤ◌, ℤ,
  pos, if◌then◌else◌, Unicode, ◌≡◌, ◌↔◌, ◌⊎◌, refl, ap, sym, ◌∙◌, arith, Bool-cases, inl, inr,
}
use fluxgate_operator.Api.{PolicyThresholds, PipelineSecurityPolicy, PipelineSecurityReport}
use fluxgate_operator.Analyzer.Compliance.{state_of_summary, compute_compliance_state}
use fluxgate_operator.Analyzer.Compliance.State.{state_of_rank}
use fluxgate_operator.Controller.Report.Laws.{IsConsistent}
use fluxgate_operator.Controller.Policy.Thresholds.{
  is_unpinned, evaluate_thresholds, levels, trigger_matches,
}

-- A reason for a level: its rank where it holds.
abbrev pub reason : Bool → ℕ → ℕ
reason b n = if b then n else 0

-- The gravest of the reasons that the thresholds give.
abbrev pub gravest_reason : Unicode → PolicyThresholds → PipelineSecurityReport → ℕ
gravest_reason u t r = max (reason (ltb_ℤ (pos 0) r.status.summary.medium) 1) (
    max (reason (t.require_pinned_actions && any (is_unpinned u) r.status.findings) 2) (
      max (reason (ltb_ℤ t.max_high r.status.summary.high) 2)
        (reason (ltb_ℤ t.max_critical r.status.summary.critical) 3)))

gravest_of_tests :
    (c h p m : Bool)
    → (if c
        then "Critical"
        else if h
        then "NonCompliant"
        else if p
        then "NonCompliant"
        else if m
        then "Warning"
        else "Compliant")
      ≡ state_of_rank (max (reason m 1) (max (reason p 2) (max (reason h 2) (reason c 3))))
gravest_of_tests true true true true = refl
gravest_of_tests true true true false = refl
gravest_of_tests true true false true = refl
gravest_of_tests true true false false = refl
gravest_of_tests true false true true = refl
gravest_of_tests true false true false = refl
gravest_of_tests true false false true = refl
gravest_of_tests true false false false = refl
gravest_of_tests false true true true = refl
gravest_of_tests false true true false = refl
gravest_of_tests false true false true = refl
gravest_of_tests false true false false = refl
gravest_of_tests false false true true = refl
gravest_of_tests false false true false = refl
gravest_of_tests false false false true = refl
gravest_of_tests false false false false = refl

-- The violation level is that of the gravest reason that holds: more critical findings than allowed
-- ("Critical"); more high ones than allowed, or an unpinned action where pins are required
-- ("NonCompliant"); a medium finding ("Warning"); and "Compliant" where no reason holds.
pub evaluate_thresholds-gravest_reason :
    (u : Unicode) (p : PipelineSecurityPolicy) (r : PipelineSecurityReport)
    → evaluate_thresholds u p r ≡ state_of_rank (gravest_reason u p.spec.thresholds r)
unfolding evaluate_thresholds
evaluate_thresholds-gravest_reason u p r = gravest_of_tests _ _ _ _

-- A policy that allows no critical and no high finding and asks for no pins gives a report whose
-- state is that of its findings the very level that the report states.
pub evaluate_thresholds-strict :
    (u : Unicode) (p : PipelineSecurityPolicy) (r : PipelineSecurityReport)
    → p.spec.thresholds.max_critical ≡ pos 0
    → p.spec.thresholds.max_high ≡ pos 0
    → p.spec.thresholds.require_pinned_actions ≡ false
    → IsConsistent r
    → evaluate_thresholds u p r ≡ r.status.compliance_state
unfolding evaluate_thresholds state_of_summary compute_compliance_state
evaluate_thresholds-strict u p r no_critical no_high no_pins (same, counted) =
    rw (no_critical, no_high, no_pins) (ap state_of_summary counted ∙ sym same)

abbrev pub IsLooser : PolicyThresholds → PolicyThresholds → Type 0
IsLooser t t' =
    (t.max_critical ≤ℤ t'.max_critical)
    × (t.max_high ≤ℤ t'.max_high)
    × (t'.require_pinned_actions ≡ true → t.require_pinned_actions ≡ true)

reason_mono : (b b' : Bool) (n : ℕ) → (b ≡ true → b' ≡ true) → reason b n ≤ reason b' n
reason_mono true b' n h = rw (h refl) (omega arith)
reason_mono false b' n h = omega arith

reason-le : (b : Bool) (n : ℕ) → reason b n ≤ n
reason-le true n = omega arith
reason-le false n = omega arith

ltb_ℤ_mono : (t t' x : ℤ) → t ≤ℤ t' → ltb_ℤ t' x ≡ true → ltb_ℤ t x ≡ true
ltb_ℤ_mono t t' x le h = ground arith

and_mono : (a a' b : Bool) → (a' ≡ true → a ≡ true) → (a' && b) ≡ true → (a && b) ≡ true
and_mono a a' b h both = ground arith

-- Looser thresholds never give a report a graver level.
pub gravest_reason-le_of_IsLooser :
    (u : Unicode) (p p' : PipelineSecurityPolicy) (r : PipelineSecurityReport)
    → IsLooser p.spec.thresholds p'.spec.thresholds
    → (n m : ℕ) × (evaluate_thresholds u p' r ≡ state_of_rank n)
      × (evaluate_thresholds u p r ≡ state_of_rank m)
      × (n ≤ m)
      × (m ≤ 3)
gravest_reason-le_of_IsLooser u p p' r (c, h, pins) =
    let t = p.spec.thresholds in
    let t' = p'.spec.thresholds in
    let unpinned = any (is_unpinned u) r.status.findings in
    (
      gravest_reason u t' r,
      gravest_reason u t r,
      evaluate_thresholds-gravest_reason u p' r,
      evaluate_thresholds-gravest_reason u p r,
      omega (
        arith,
        reason_mono (t'.require_pinned_actions && unpinned) (t.require_pinned_actions && unpinned) 2
            (and_mono _ _ unpinned pins),
        reason_mono (ltb_ℤ t'.max_high r.status.summary.high)
            (ltb_ℤ t.max_high r.status.summary.high) 2
            (ltb_ℤ_mono t.max_high t'.max_high r.status.summary.high h),
        reason_mono (ltb_ℤ t'.max_critical r.status.summary.critical)
            (ltb_ℤ t.max_critical r.status.summary.critical) 3
            (ltb_ℤ_mono t.max_critical t'.max_critical r.status.summary.critical c),
      ),
      omega (
        arith,
        reason-le (ltb_ℤ (pos 0) r.status.summary.medium) 1,
        reason-le (t.require_pinned_actions && unpinned) 2,
        reason-le (ltb_ℤ t.max_high r.status.summary.high) 2,
        reason-le (ltb_ℤ t.max_critical r.status.summary.critical) 3,
      ),
    )

-- The levels that an action's trigger can name.
pub data Level : Type 0 where
  warning non_compliant critical : Level

abbrev pub level_name : Level → String
level_name warning = "Warning"
level_name non_compliant = "NonCompliant"
level_name critical = "Critical"

abbrev pub level_rank : Level → ℕ
level_rank warning = 1
level_rank non_compliant = 2
level_rank critical = 3

-- A text names a level, or the table of levels does not have it.
level-cases :
    (s : String)
    → (lookup s levels ≡ none)
      ⊎ ((a : Level) × (s ≡ level_name a) × (lookup s levels ≡ some (level_rank a)))
unfolding lookup
level-cases s = elim (Bool-cases ("Warning" == s)) [
  | inl e ↦ let p = sym ((eq_iff _ _).0 e) in inr (warning, p, rw p)
  | inr w ↦ elim (Bool-cases ("NonCompliant" == s)) [
    | inl e ↦ let p = sym ((eq_iff _ _).0 e) in inr (non_compliant, p, rw p)
    | inr n ↦ elim (Bool-cases ("Critical" == s)) [
      | inl e ↦ let p = sym ((eq_iff _ _).0 e) in inr (critical, p, rw p)
      | inr c ↦ inl (rw (w, n, c))
    ]
  ]
]

pub trigger_matches-names :
    (a b : Level)
    → level_rank a ≤ level_rank b
    → trigger_matches (level_name a) (level_name b) ≡ true
unfolding trigger_matches lookup
trigger_matches-names warning warning h = refl
trigger_matches-names warning non_compliant h = refl
trigger_matches-names warning critical h = refl
trigger_matches-names non_compliant warning h = absurd (omega arith)
trigger_matches-names non_compliant non_compliant h = refl
trigger_matches-names non_compliant critical h = refl
trigger_matches-names critical warning h = absurd (omega arith)
trigger_matches-names critical non_compliant h = absurd (omega arith)
trigger_matches-names critical critical h = refl

names_of_trigger_matches :
    (t v : String)
    → trigger_matches t v ≡ true
    → (a b : Level) × (t ≡ level_name a) × (v ≡ level_name b) × (level_rank a ≤ level_rank b)
unfolding trigger_matches
names_of_trigger_matches t v h = elim (level-cases t) [
  | inl unknown ↦ cc (rw (unknown, trigger_matches) at h)
  | inr (a, p, rank_a) ↦ elim (level-cases v) [
    | inl unknown ↦ cc (rw (rank_a, unknown, trigger_matches) at h)
    | inr (b, q, rank_b) ↦
        let le = rw (rank_a, rank_b, trigger_matches) at h in (a, b, p, q, ground arith)
  ]
]

-- An action is triggered exactly when its trigger and the violation level both name a level, and the
-- violation is at least as grave as the trigger.
pub trigger_matches_iff :
    (trigger violation_level : String)
    → (trigger_matches trigger violation_level ≡ true) ↔ (
        (a b : Level) × (trigger ≡ level_name a)
        × (violation_level ≡ level_name b)
        × (level_rank a ≤ level_rank b))
trigger_matches_iff t v = (
  λ h. names_of_trigger_matches t v h,
  λ (a, b, p, q, le). rw (p, q) (trigger_matches-names a b le),
)

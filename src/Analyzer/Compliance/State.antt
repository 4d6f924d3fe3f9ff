-- ===== src/Analyzer/Compliance/State.antt =====
-- The compliance state against the severities of the findings.
use Prim.Native.Nat.{max}
use mathlib.Core.List.{Perm, Permᴰ}
use mathlib.Core.Logic.{∥∥₁_elim}
use native.Mathlib.Nat.{ℕ_set}
use fluxgate_operator.Prelude.{
  ℕ, zero, suc, ◌<◌, ◌≤◌, ◌≡◌, ◌∙◌, refl, sym, ap, List, [], ◌∷◌, length, String, ◌==◌, pos,
  int_limit, arith, if◌then◌else◌, ltb,
}
use fluxgate_operator.Api.{Finding, FindingSummary}
use fluxgate_operator.Analyzer.Compliance.{state_of_summary, compute_compliance_state}
use fluxgate_operator.Analyzer.Compliance.Counts.{
  occurrences, summary_of, bump, severity_split, compute_compliance_state-counts,
}
use fluxgate_operator.Metrics.{compliance_state_to_float}

-- How grave a severity is; "low", "info" and unknown severities weigh nothing.
abbrev pub severity_rank : String → ℕ
severity_rank s =
    if s == "critical" then 3 else if s == "high" then 2 else if s == "medium" then 1 else 0

-- The gravest severity among the findings.
abbrev pub worst : List Finding → ℕ
worst [] = 0
worst (f ∷ fs) = max (severity_rank f.severity) (worst fs)

abbrev pub state_of_rank : ℕ → String
state_of_rank zero = "Compliant"
state_of_rank (suc zero) = "Warning"
state_of_rank (suc (suc zero)) = "NonCompliant"
state_of_rank (suc (suc (suc n))) = "Critical"

level : ℕ → ℕ → ℕ → ℕ
level c h m = if ltb 0 c then 3 else if ltb 0 h then 2 else if ltb 0 m then 1 else 0

level-bump :
    (c h m : ℕ) (s : String)
    → max (severity_rank s) (level c h m)
      ≡ level (bump (s == "critical") c) (bump (s == "high") h) (bump (s == "medium") m)
unfolding level
level-bump c h m =
    severity_split _ (ground arith) (ground arith) (ground arith) (ground arith) (ground arith)
      (λ s p q r u v. rw (p, q, r) (ground arith))

worst-eq-level :
    (fs : List Finding)
    → worst fs ≡ level (occurrences "critical" fs) (occurrences "high" fs) (occurrences "medium" fs)
unfolding level
worst-eq-level [] = refl
worst-eq-level (f ∷ fs) = rw (worst-eq-level fs) (
    level-bump (occurrences "critical" fs) (occurrences "high" fs) (occurrences "medium" fs)
      f.severity)

state_of_summary-level :
    (c h m l i t : ℕ) → state_of_summary (summary_of c h m l i t) ≡ state_of_rank (level c h m)
unfolding state_of_summary level
state_of_summary-level c h m l i t = ground arith

-- With fewer than 2 ^ 63 findings, the state is that of the gravest finding: "Critical" for a
-- critical one, "NonCompliant" for a high one, "Warning" for a medium one, else "Compliant".
pub compute_compliance_state-worst :
    (fs : List Finding)
    → length fs < int_limit
    → (compute_compliance_state fs).0 ≡ state_of_rank (worst fs)
unfolding compute_compliance_state
compute_compliance_state-worst fs lim =
    ap state_of_summary (compute_compliance_state-counts fs lim)
    ∙ state_of_summary-level (occurrences "critical" fs) (occurrences "high" fs)
        (occurrences "medium" fs) (occurrences "low" fs) (occurrences "info" fs) (length fs)
    ∙ ap state_of_rank (sym (worst-eq-level fs))

worst-le : (fs : List Finding) → worst fs ≤ 3
unfolding level
worst-le fs = rw (worst-eq-level fs) (ground arith)

compliance_state_to_float-state_of_rank :
    (n : ℕ) → n ≤ 3 → compliance_state_to_float (state_of_rank n) ≡ pos n
unfolding compliance_state_to_float
compliance_state_to_float-state_of_rank zero h = refl
compliance_state_to_float-state_of_rank (suc zero) h = refl
compliance_state_to_float-state_of_rank (suc (suc zero)) h = refl
compliance_state_to_float-state_of_rank (suc (suc (suc zero))) h = refl
compliance_state_to_float-state_of_rank (suc (suc (suc (suc n)))) h = absurd (omega arith)

-- With fewer than 2 ^ 63 findings, the value that the compliance gauge is set to for the computed
-- state is the rank of the gravest finding, 0 to 3; it is never the -1 of an unknown state.
pub compliance_state_to_float-worst :
    (fs : List Finding)
    → length fs < int_limit
    → (compliance_state_to_float (compute_compliance_state fs).0 ≡ pos (worst fs)) × (worst fs ≤ 3)
compliance_state_to_float-worst fs lim = (
  rw (compute_compliance_state-worst fs lim)
      (compliance_state_to_float-state_of_rank (worst fs) (worst-le fs)),
  worst-le fs,
)

occurrences-permᴰ :
    {fs gs : List Finding} (s : String) → Permᴰ fs gs → occurrences s fs ≡ occurrences s gs
occurrences-permᴰ s Permᴰ.nil = refl
occurrences-permᴰ s (Permᴰ.cons e p) = rw (e, occurrences-permᴰ s p)
occurrences-permᴰ s (Permᴰ.swap e f) = rw (e, f) (ground arith)
occurrences-permᴰ s (Permᴰ.trans p q) = occurrences-permᴰ s p ∙ occurrences-permᴰ s q

length-permᴰ : {fs gs : List Finding} → Permᴰ fs gs → length fs ≡ length gs
length-permᴰ Permᴰ.nil = refl
length-permᴰ (Permᴰ.cons e p) = ap suc (length-permᴰ p)
length-permᴰ (Permᴰ.swap e f) = refl
length-permᴰ (Permᴰ.trans p q) = length-permᴰ p ∙ length-permᴰ q

-- The summary that counts the findings.
abbrev counts_of : List Finding → FindingSummary
counts_of fs =
    summary_of (occurrences "critical" fs) (occurrences "high" fs) (occurrences "medium" fs)
      (occurrences "low" fs) (occurrences "info" fs) (length fs)

module _ {fs gs : List Finding} (p : Perm fs gs) where
  occurrences-perm : (s : String) → occurrences s fs ≡ occurrences s gs
  occurrences-perm s = ∥∥₁_elim p (ℕ_set _ _) (occurrences-permᴰ s)

  length-perm : length fs ≡ length gs
  length-perm = ∥∥₁_elim p (ℕ_set _ _) length-permᴰ

  counts-perm : counts_of fs ≡ counts_of gs
  counts-perm = rw (
    occurrences-perm "critical",
    occurrences-perm "high",
    occurrences-perm "medium",
    occurrences-perm "low",
    occurrences-perm "info",
    length-perm,
  )

-- With fewer than 2 ^ 63 findings, neither the state nor the summary depends on their order.
pub compute_compliance_state-perm :
    {fs gs : List Finding}
    → Perm fs gs
    → length fs < int_limit
    → compute_compliance_state fs ≡ compute_compliance_state gs
unfolding compute_compliance_state
compute_compliance_state-perm {fs} {gs} p lim =
    ap (λ x. (state_of_summary x, x))
      (compute_compliance_state-counts fs lim
        ∙ counts-perm p
        ∙ sym (compute_compliance_state-counts gs (rw (← length-perm p) lim)))

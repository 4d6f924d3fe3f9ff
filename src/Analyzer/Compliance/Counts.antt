-- ===== src/Analyzer/Compliance/Counts.antt =====
-- What the counters of `ComputeComplianceState` hold.
use fluxgate_operator.Prelude.{
  ℕ, ◌+◌, ◌<◌, ◌≤◌, ◌≡◌, ◌∙◌, Bool, true, false, sym, ap, subst, Bool-cases, inl, inr, List, [],
  ◌∷◌, length, String, ◌==◌, eq_iff, pos, int_inc_pos, int_limit, arith, if◌then◌else◌,
}
use fluxgate_operator.Api.{Finding, FindingSummary}
use fluxgate_operator.Analyzer.Compliance.{count_severity, summarize, compute_compliance_state}

-- How many findings have the severity.
abbrev pub occurrences : String → List Finding → ℕ
occurrences severity [] = 0
occurrences severity (f ∷ fs) =
    if f.severity == severity then occurrences severity fs + 1 else occurrences severity fs

-- The summary that holds the given numbers.
abbrev pub summary_of : ℕ → ℕ → ℕ → ℕ → ℕ → ℕ → FindingSummary
summary_of c h m l i t = record {
  critical = pos c;
  high = pos h;
  medium = pos m;
  low = pos l;
  info = pos i;
  total = pos t;
}

abbrev pub bump : Bool → ℕ → ℕ
bump b n = if b then n + 1 else n

-- A text is one of the five severities, or none of them.
pub severity_split :
    (P : String → Type 0)
    → P "critical"
    → P "high"
    → P "medium"
    → P "low"
    → P "info"
    → ((s : String)
        → (s == "critical") ≡ false
        → (s == "high") ≡ false
        → (s == "medium") ≡ false
        → (s == "low") ≡ false
        → (s == "info") ≡ false
        → P s)
    → (s : String) → P s
severity_split P pc ph pm pl pi other s = elim (Bool-cases (s == "critical")) [
  | inl e ↦ subst P (sym ((eq_iff _ _).0 e)) pc
  | inr c ↦ elim (Bool-cases (s == "high")) [
    | inl e ↦ subst P (sym ((eq_iff _ _).0 e)) ph
    | inr h ↦ elim (Bool-cases (s == "medium")) [
      | inl e ↦ subst P (sym ((eq_iff _ _).0 e)) pm
      | inr m ↦ elim (Bool-cases (s == "low")) [
        | inl e ↦ subst P (sym ((eq_iff _ _).0 e)) pl
        | inr l ↦ elim (Bool-cases (s == "info")) [
          | inl e ↦ subst P (sym ((eq_iff _ _).0 e)) pi
          | inr i ↦ other s c h m l i
        ]
      ]
    ]
  ]
]

module _ (c h m l i t : ℕ) (lim : c + h + m + l + i + 1 < int_limit) where
  -- One round of the switch, on counters that are far from the limit.
  count_severity-summary_of :
      (s : String)
      → count_severity s (summary_of c h m l i t)
        ≡ summary_of
            (bump (s == "critical") c)
            (bump (s == "high") h)
            (bump (s == "medium") m)
            (bump (s == "low") l)
            (bump (s == "info") i)
            t
  unfolding count_severity
  count_severity-summary_of =
      severity_split _
        (ap (λ x. record (summary_of c h m l i t) { critical = x }) (int_inc_pos c (omega arith)))
        (ap (λ x. record (summary_of c h m l i t) { high = x }) (int_inc_pos h (omega arith)))
        (ap (λ x. record (summary_of c h m l i t) { medium = x }) (int_inc_pos m (omega arith)))
        (ap (λ x. record (summary_of c h m l i t) { low = x }) (int_inc_pos l (omega arith)))
        (ap (λ x. record (summary_of c h m l i t) { info = x }) (int_inc_pos i (omega arith)))
        (λ s p q r u v. rw (p, q, r, u, v))

bump-step : (b : Bool) (n k : ℕ) → bump b n + k ≡ n + (if b then k + 1 else k)
bump-step true n k = omega arith
bump-step false n k = omega arith

-- One severity at most is bumped.
bumps-le :
    (c h m l i : ℕ) (s : String)
    → bump (s == "critical") c
        + bump (s == "high") h
        + bump (s == "medium") m
        + bump (s == "low") l
        + bump (s == "info") i
      ≤ c + h + m + l + i + 1
bumps-le c h m l i =
    severity_split _ (omega arith) (omega arith) (omega arith) (omega arith) (omega arith)
      (λ s p q r u v. rw (p, q, r, u, v) (omega arith))

summarize-summary_of :
    (fs : List Finding) (c h m l i t : ℕ)
    → c + h + m + l + i < t + 1
    → t + length fs < int_limit
    → summarize (summary_of c h m l i t) fs
      ≡ summary_of
          (c + occurrences "critical" fs)
          (h + occurrences "high" fs)
          (m + occurrences "medium" fs)
          (l + occurrences "low" fs)
          (i + occurrences "info" fs)
          (t + length fs)
unfolding summarize
summarize-summary_of [] c h m l i t le lim = ground arith
summarize-summary_of (f ∷ fs) c h m l i t le lim =
    let s = f.severity in
    rw (int_inc_pos t (omega arith), count_severity-summary_of c h m l i (t + 1) (omega arith) s)
      (summarize-summary_of fs (bump (s == "critical") c) (bump (s == "high") h)
          (bump (s == "medium") m) (bump (s == "low") l) (bump (s == "info") i) (t + 1)
          (omega (arith, bumps-le c h m l i s)) (omega arith)
        ∙ ground (
          arith,
          bump-step (s == "critical") c (occurrences "critical" fs),
          bump-step (s == "high") h (occurrences "high" fs),
          bump-step (s == "medium") m (occurrences "medium" fs),
          bump-step (s == "low") l (occurrences "low" fs),
          bump-step (s == "info") i (occurrences "info" fs),
        ))

-- With fewer than 2 ^ 63 findings, each counter holds the number of findings of its severity and
-- `total` the number of all findings.
pub compute_compliance_state-counts :
    (fs : List Finding)
    → length fs < int_limit
    → (compute_compliance_state fs).1
      ≡ summary_of
          (occurrences "critical" fs)
          (occurrences "high" fs)
          (occurrences "medium" fs)
          (occurrences "low" fs)
          (occurrences "info" fs)
          (length fs)
unfolding compute_compliance_state
compute_compliance_state-counts fs lim =
    summarize-summary_of fs 0 0 0 0 0 0 (omega arith) (omega arith) ∙ ground arith

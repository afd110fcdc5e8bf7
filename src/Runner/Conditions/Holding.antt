-- ===== src/Runner/Conditions/Holding.antt =====
-- What it means that a declared condition holds of a run (loop/plan_runner.py,
-- `evaluate_condition`).
use paper_to_pipeline.Base.{
  ◌≡◌, refl, ◌↔◌, ◌⊎◌, inl, inr, ◌≢◌, String, Bool, true, false, not, Option, none, some, List, [],
  ◌∷◌, All, arith, any, ◌==◌, string_eq, option_eq, ==_iff, is_empty_iff, Option-cases, Bool-cases,
}
use paper_to_pipeline.Base.Int.{pos, int_eq}
use paper_to_pipeline.Base.Dict.{Dict, get, has}
use paper_to_pipeline.Base.Json.{Json, obj, Fields}
use paper_to_pipeline.Base.Numbers.{Arith}
use paper_to_pipeline.Results.{ShellOutcome}
use paper_to_pipeline.Gate.{metric_differences}
use paper_to_pipeline.Gate.Baseline.{Agrees, metric_differences-Agrees}
use paper_to_pipeline.Runner.Plan.{
  Library, Match, compare_by, Condition, exit_zero, stdout_matches, stdout_excludes,
  matches_clean_tree, metrics_equal_baseline, metric_threshold, unknown, CleanTree,
  CorrectnessEntry, TestPlan, Comparison,
}
use paper_to_pipeline.Runner.Pointer.{resolve, metrics_of}
use paper_to_pipeline.Runner.Conditions.{
  shown, is_evidence, evaluate_matches, evaluate_excludes, evaluate_summary, evaluate_clean_tree,
  evaluate_metrics, evaluate_baseline, evaluate_threshold, evaluate_kind, evaluate_condition,
  keys_of, tolerance_of, evaluate_pattern, evaluate_recorded,
}

-- The output of a command that failed shows nothing, unless the entry allows for the failure.
abbrev pub IsEvidence : Bool → ShellOutcome → Type 0
IsEvidence allow outcome = (allow ≡ true) ⊎ (outcome.exit_code ≡ pos 0)

is_evidence-IsEvidence :
    (allow : Bool) (outcome : ShellOutcome)
    → (is_evidence allow outcome ≡ true) ↔ IsEvidence allow outcome
unfolding is_evidence
is_evidence-IsEvidence allow outcome = ground (arith, ==_iff outcome.exit_code (pos 0))

module _ (lib : Library) where
  -- The summary that the clean tree produced is produced again.
  abbrev pub Repeats : String → Option String → ShellOutcome → Type 0
  Repeats pattern summary outcome =
      (hit : Match) × (lib.search pattern outcome.output ≡ some hit) × (shown hit ≡ summary)

  module _ {A : Type 0} ⦃n : Arith A⦄ where
    abbrev pub Holds :
        Condition A → CleanTree → ShellOutcome → Dict A → TestPlan A → Json A → Type 0
    Holds exit_zero clean outcome metrics plan baseline = outcome.exit_code ≡ pos 0
    Holds (stdout_matches pattern allow) clean outcome metrics plan baseline =
        IsEvidence allow outcome × (hit : Match) × (lib.search pattern outcome.output ≡ some hit)
    Holds (stdout_excludes pattern allow) clean outcome metrics plan baseline =
        IsEvidence allow outcome × (lib.search pattern outcome.output ≡ none)
    Holds (matches_clean_tree pattern) clean outcome metrics plan baseline =
        (some outcome.exit_code ≡ clean.exit_code)
        × ((p : String) → pattern ≡ some p → p ≢ "" → Repeats p clean.summary outcome)
    Holds (metrics_equal_baseline p names tol) clean outcome metrics plan baseline =
        (base : Fields A) × (resolve baseline p ≡ obj base)
        × All (λ key. Agrees (get key (metrics_of base)) (get key metrics) (tolerance_of tol plan))
            (keys_of names plan)
    Holds (metric_threshold m comparison bound) clean outcome metrics plan baseline =
        (value : A) × (get m metrics ≡ some value) × (compare_by comparison value bound ≡ true)
    Holds (unknown kind) clean outcome metrics plan baseline = ⊥

  module _ {A : Type 0} where
    matches_iff :
        (pattern : String) (allow : Bool) (outcome : ShellOutcome)
        → (evaluate_matches {A = A} lib pattern allow outcome ≡ none) ↔ (
            IsEvidence allow outcome
            × (hit : Match) × (lib.search pattern outcome.output ≡ some hit))
    unfolding evaluate_matches
    matches_iff pattern allow outcome = ground (arith, is_evidence-IsEvidence allow outcome)

    excludes_iff :
        (pattern : String) (allow : Bool) (outcome : ShellOutcome)
        → (evaluate_excludes {A = A} lib pattern allow outcome ≡ none)
          ↔ (IsEvidence allow outcome × (lib.search pattern outcome.output ≡ none))
    unfolding evaluate_excludes
    excludes_iff pattern allow outcome = ground (arith, is_evidence-IsEvidence allow outcome)

    summary_iff :
        (pattern : String) (clean : Option String) (outcome : ShellOutcome)
        → (evaluate_summary {A = A} lib pattern clean outcome ≡ none)
          ↔ Repeats pattern clean outcome
    unfolding evaluate_summary
    summary_iff pattern clean outcome = (
      λ h. elim (Option-cases (lib.search pattern outcome.output)) [
        | inl e ↦ absurd (ground (arith, e, h))
        | inr (hit, e) ↦ (hit, e, ground (arith, e, h, ==_iff (shown hit) clean))
      ],
      λ (hit, e, same). ground (arith, e, same, ==_iff (shown hit) clean),
    )

    pattern_iff :
        (pattern clean : Option String) (outcome : ShellOutcome)
        → (evaluate_pattern {A = A} lib pattern clean outcome ≡ none)
          ↔ ((p : String) → pattern ≡ some p → p ≢ "" → Repeats p clean outcome)
    unfolding evaluate_pattern
    pattern_iff none clean outcome = ground arith
    pattern_iff (some q) clean outcome =
        let whole = summary_iff q clean outcome in
        let same = ==_iff q "" in
        (
          λ h p e blank.
              let eq : q ≡ p = cc in rw eq at (whole.0 (ground (arith, same, eq, blank, h))),
          λ h. elim (Bool-cases (q == "")) [
            | inl e ↦ ground (arith, e)
            | inr e ↦ ground (arith, e, whole.1 (h q refl (λ b. ground (arith, e, same, b))))
          ],
        )

    clean_tree_iff :
        (pattern : Option String) (clean : CleanTree) (outcome : ShellOutcome)
        → (evaluate_clean_tree {A = A} lib pattern clean outcome ≡ none) ↔ (
            (some outcome.exit_code ≡ clean.exit_code)
            × ((p : String) → pattern ≡ some p → p ≢ "" → Repeats p clean.summary outcome))
    unfolding evaluate_clean_tree
    clean_tree_iff pattern clean outcome = ground (
      arith,
      ==_iff (some outcome.exit_code) clean.exit_code,
      pattern_iff pattern clean.summary outcome,
    )

  module _ {A : Type 0} ⦃n : Arith A⦄ where
    none_missing :
        (base metrics : Dict A) (keys : List String) (tol : A)
        → All (λ key. Agrees (get key base) (get key metrics) tol) keys
        → any (λ k. not (has k metrics)) keys ≡ false
    none_missing base metrics [] tol h = refl
    none_missing base metrics (k ∷ keys) tol h =
        ground (arith, h.0.observed, none_missing base metrics keys tol h.1)

    metrics_iff :
        (base metrics : Dict A) (keys : List String) (tol : A) (outcome : ShellOutcome)
        → (evaluate_metrics base metrics keys tol outcome ≡ none)
          ↔ All (λ key. Agrees (get key base) (get key metrics) tol) keys
    unfolding evaluate_metrics
    metrics_iff base metrics keys tol outcome = ground (
      arith,
      none_missing base metrics keys tol,
      metric_differences-Agrees base metrics keys tol,
      is_empty_iff (metric_differences base metrics keys tol),
    )

    recorded_iff :
        (p : String) (found : Json A) (metrics : Dict A) (keys : List String) (tol : A)
        (outcome : ShellOutcome)
        → (evaluate_recorded p found metrics keys tol outcome ≡ none) ↔ (
            (base : Fields A) × (found ≡ obj base)
            × All (λ key. Agrees (get key (metrics_of base)) (get key metrics) tol) keys)
    unfolding evaluate_recorded
    recorded_iff p (obj base) metrics keys tol outcome =
        let whole = metrics_iff (metrics_of base) metrics keys tol outcome in
        (
          λ h. (base, refl, whole.0 h),
          λ (b, e, h). let same : b ≡ base = cc in whole.1 (rw same at h),
        )
    recorded_iff p _ metrics keys tol outcome = ground arith

    baseline_iff :
        (p : String) (names : List String) (tol : Option A) (outcome : ShellOutcome)
        (metrics : Dict A) (plan : TestPlan A) (baseline : Json A)
        → (evaluate_baseline p names tol outcome metrics plan baseline ≡ none) ↔ (
            (base : Fields A) × (resolve baseline p ≡ obj base)
            × All
                (λ key.
                  Agrees (get key (metrics_of base)) (get key metrics) (tolerance_of tol plan))
                (keys_of names plan))
    unfolding evaluate_baseline
    baseline_iff p names tol outcome metrics plan baseline =
        recorded_iff p (resolve baseline p) metrics (keys_of names plan) (tolerance_of tol plan)
          outcome

    threshold_iff :
        (m : String) (comparison : Comparison) (bound : A) (metrics : Dict A)
        → (evaluate_threshold m comparison bound metrics ≡ none) ↔ (
            (value : A) × (get m metrics ≡ some value) × (compare_by comparison value bound ≡ true))
    unfolding evaluate_threshold
    threshold_iff m comparison bound metrics = ground arith

    kind_iff :
        (pc : Condition A) (clean : CleanTree) (outcome : ShellOutcome) (metrics : Dict A)
        (plan : TestPlan A) (baseline : Json A)
        → (evaluate_kind lib pc clean outcome metrics plan baseline ≡ none)
          ↔ Holds pc clean outcome metrics plan baseline
    unfolding evaluate_kind
    kind_iff exit_zero clean outcome metrics plan baseline =
        ground (arith, ==_iff outcome.exit_code (pos 0))
    kind_iff (stdout_matches pattern allow) clean outcome metrics plan baseline =
        matches_iff pattern allow outcome
    kind_iff (stdout_excludes pattern allow) clean outcome metrics plan baseline =
        excludes_iff pattern allow outcome
    kind_iff (matches_clean_tree pattern) clean outcome metrics plan baseline =
        clean_tree_iff pattern clean outcome
    kind_iff (metrics_equal_baseline p names tol) clean outcome metrics plan baseline =
        baseline_iff p names tol outcome metrics plan baseline
    kind_iff (metric_threshold m comparison bound) clean outcome metrics plan baseline =
        threshold_iff m comparison bound metrics
    kind_iff (unknown kind) clean outcome metrics plan baseline = ground arith

    -- No objection is raised exactly when the command ended in time and the entry's condition holds
    -- of the run: for a comparison with the baseline, that the baseline is recorded and every
    -- declared metric agrees with it; for a pattern, that the exit code makes the output evidence.
    pub evaluate_condition-Holds :
        (entry : CorrectnessEntry A) (outcome : ShellOutcome) (metrics : Dict A) (plan : TestPlan A)
        (baseline : Json A)
        → (evaluate_condition lib entry outcome metrics plan baseline ≡ none) ↔ (
            (outcome.timed_out ≡ false)
            × Holds entry.pass_condition entry.clean_tree outcome metrics plan baseline)
    unfolding evaluate_condition
    evaluate_condition-Holds entry outcome metrics plan baseline =
        ground (arith, kind_iff entry.pass_condition entry.clean_tree outcome metrics plan baseline)

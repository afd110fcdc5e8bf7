-- ===== src/Runner/Conditions.antt =====
-- Pass conditions (loop/plan_runner.py, `evaluate_condition`). The sentence that says why a
-- condition does not hold is a value with the parts it is written from, and the empty string is
-- `none`.
pub mod Holding
use paper_to_pipeline.Base.{
  ℕ, String, Bool, true, false, Option, none, some, List, [], ◌∷◌, ◌==◌, string_eq, option_eq,
  is_empty, not, any, ◌&&◌, if◌then◌else◌,
}
use paper_to_pipeline.Base.Int.{ℤ, pos, int_eq}
use paper_to_pipeline.Base.Text.{last_chars}
use paper_to_pipeline.Base.Dict.{Dict, get, has}
use paper_to_pipeline.Base.Json.{Json, obj}
use paper_to_pipeline.Base.Numbers.{Arith, zero_num}
use paper_to_pipeline.Results.{ShellOutcome}
use paper_to_pipeline.Gate.{Difference, metric_differences}
use paper_to_pipeline.Runner.Plan.{
  Library, Match, Comparison, compare_by, Condition, exit_zero, stdout_matches, stdout_excludes,
  matches_clean_tree, metrics_equal_baseline, metric_threshold, unknown, CleanTree,
  CorrectnessEntry, TestPlan,
}
use paper_to_pipeline.Runner.Pointer.{resolve, metrics_of}

pub data Why (A : Type 0) : Type 0 where
  timed_out : (command : String) → Why A
  exited : (exit_code : ℤ) (tail : String) → Why A
  not_evidence : (exit_code : ℤ) (tail : String) → Why A
  no_match : (pattern tail : String) → Why A
  forbidden : (hit : String) → Why A
  unlike_clean : (exit_code : ℤ) (clean : Option ℤ) (tail : String) → Why A
  nothing_to_compare : (pattern : String) → Why A
  other_summary : (seen clean : Option String) → Why A
  no_baseline : (pointer : String) → Why A
  not_baseline : List (Difference A) → (output : Option (ℤ × String)) → Why A
  no_metric : (metric : String) → Why A
  fails_bound : (metric : String) (value : A) (comparison : Comparison) (bound : A) → Why A
  unknown_condition : (kind : Option String) → Why A

-- `outcome.output[-2000:]`
abbrev pub output_tail : ShellOutcome → String
output_tail outcome = last_chars 2000 outcome.output

-- `hit.group(1) if hit.groups() else hit.group(0)`
unfoldable pub shown : Match → Option String
shown hit = elim hit.groups [ [] ↦ some hit.whole | first ∷ _ ↦ first ]

-- The exit code that makes output evidence.
unfoldable pub is_evidence : (allow_nonzero_exit : Bool) → ShellOutcome → Bool
is_evidence allow outcome = not (not allow && not (outcome.exit_code == pos 0))

module _ {A : Type 0} (lib : Library) where
  unfoldable pub evaluate_matches :
      (pattern : String) (allow_nonzero_exit : Bool) → ShellOutcome → Option (Why A)
  unfolding is_evidence
  evaluate_matches pattern allow outcome =
      if not (is_evidence allow outcome)
      then some (not_evidence outcome.exit_code (output_tail outcome))
      else elim (lib.search pattern outcome.output) [
        | none ↦ some (no_match pattern (output_tail outcome))
        | some hit ↦ none
      ]

  unfoldable pub evaluate_excludes :
      (pattern : String) (allow_nonzero_exit : Bool) → ShellOutcome → Option (Why A)
  unfolding is_evidence
  evaluate_excludes pattern allow outcome =
      if not (is_evidence allow outcome)
      then some (not_evidence outcome.exit_code (output_tail outcome))
      else elim (lib.search pattern outcome.output) [
        | none ↦ none
        | some hit ↦ some (forbidden hit.whole)
      ]

  -- the comparison of the summary
  unfoldable pub evaluate_summary :
      (pattern : String) (clean : Option String) → ShellOutcome → Option (Why A)
  unfolding shown
  evaluate_summary pattern clean outcome = elim (lib.search pattern outcome.output) [
    | none ↦ some (nothing_to_compare pattern)
    | some hit ↦ if shown hit == clean then none else some (other_summary (shown hit) clean)
  ]

  -- `if pattern:`
  unfoldable pub evaluate_pattern : (pattern clean : Option String) → ShellOutcome → Option (Why A)
  unfolding evaluate_summary
  evaluate_pattern none clean outcome = none
  evaluate_pattern (some pattern) clean outcome =
      if pattern == "" then none else evaluate_summary pattern clean outcome

  unfoldable pub evaluate_clean_tree :
      (pattern : Option String) → CleanTree → ShellOutcome → Option (Why A)
  unfolding evaluate_pattern
  evaluate_clean_tree pattern clean outcome =
      if not (some outcome.exit_code == clean.exit_code)
      then some (unlike_clean outcome.exit_code clean.exit_code (output_tail outcome))
      else evaluate_pattern pattern clean.summary outcome

module _ {A : Type 0} ⦃n : Arith A⦄ where
  -- The body of `metrics_equal_baseline`, from the recorded metrics, the keys and the tolerance.
  unfoldable pub evaluate_metrics :
      (base metrics : Dict A) (keys : List String) (tol : A) → ShellOutcome → Option (Why A)
  evaluate_metrics base metrics keys tol outcome =
      let why = metric_differences base metrics keys tol in
      if any (λ k. not (has k metrics)) keys
      then some (not_baseline why (some (outcome.exit_code, output_tail outcome)))
      else if is_empty why
      then none
      else some (not_baseline why none)

  abbrev pub tolerance_of : Option A → TestPlan A → A
  tolerance_of (some tol) plan = tol
  tolerance_of none plan = elim plan.baseline_rel_tol [ none ↦ zero_num | some tol ↦ tol ]

  abbrev pub keys_of : List String → TestPlan A → List String
  keys_of metrics plan = if is_empty metrics then plan.metric_keys else metrics

  -- What `_resolve` gave: an object, or no baseline.
  unfoldable pub evaluate_recorded :
      (pointer : String) (found : Json A) (metrics : Dict A) (keys : List String) (tol : A)
      → ShellOutcome
      → Option (Why A)
  unfolding evaluate_metrics
  evaluate_recorded pointer (obj base) metrics keys tol outcome =
      evaluate_metrics (metrics_of base) metrics keys tol outcome
  evaluate_recorded pointer _ metrics keys tol outcome = some (no_baseline pointer)

  unfoldable pub evaluate_baseline :
      (pointer : String) (metrics : List String) (rel_tol : Option A)
      → ShellOutcome
      → Dict A
      → TestPlan A
      → Json A
      → Option (Why A)
  unfolding evaluate_recorded
  evaluate_baseline pointer names rel_tol outcome metrics plan baseline =
      evaluate_recorded pointer (resolve baseline pointer) metrics (keys_of names plan)
        (tolerance_of rel_tol plan) outcome

  unfoldable pub evaluate_threshold :
      (metric : String) (comparison : Comparison) (bound : A) → Dict A → Option (Why A)
  unfolding compare_by
  evaluate_threshold metric comparison bound metrics = elim (get metric metrics) [
    | none ↦ some (no_metric metric)
    | some value ↦
        if compare_by comparison value bound
        then none
        else some (fails_bound metric value comparison bound)
  ]

  unfoldable pub evaluate_kind :
      Library
      → Condition A
      → CleanTree
      → ShellOutcome
      → Dict A
      → TestPlan A
      → Json A
      → Option (Why A)
  unfolding evaluate_matches evaluate_excludes evaluate_clean_tree evaluate_baseline
      evaluate_threshold
  evaluate_kind lib exit_zero clean outcome metrics plan baseline =
      if outcome.exit_code == pos 0
      then none
      else some (exited outcome.exit_code (output_tail outcome))
  evaluate_kind lib (stdout_matches pattern allow) clean outcome metrics plan baseline =
      evaluate_matches lib pattern allow outcome
  evaluate_kind lib (stdout_excludes pattern allow) clean outcome metrics plan baseline =
      evaluate_excludes lib pattern allow outcome
  evaluate_kind lib (matches_clean_tree pattern) clean outcome metrics plan baseline =
      evaluate_clean_tree lib pattern clean outcome
  evaluate_kind lib (metrics_equal_baseline p names tol) clean outcome metrics plan baseline =
      evaluate_baseline p names tol outcome metrics plan baseline
  evaluate_kind lib (metric_threshold m comparison bound) clean outcome metrics plan baseline =
      evaluate_threshold m comparison bound metrics
  evaluate_kind lib (unknown kind) clean outcome metrics plan baseline =
      some (unknown_condition kind)

  unfoldable pub evaluate_condition :
      Library → CorrectnessEntry A → ShellOutcome → Dict A → TestPlan A → Json A → Option (Why A)
  unfolding evaluate_kind
  evaluate_condition lib entry outcome metrics plan baseline =
      if outcome.timed_out
      then some (timed_out entry.command)
      else evaluate_kind lib entry.pass_condition entry.clean_tree outcome metrics plan baseline

-- ===== src/Runner/Performance.antt =====
-- One performance entry (loop/plan_runner.py, `_relative_improvement`, `_run_performance`). A
-- message is a value with the parts that the source's sentence is written from.
pub mod Judged
use paper_to_pipeline.Base.{
  ℕ, String, Bool, true, false, Option, none, some, List, [], ◌∷◌, ◌++◌, ◌||◌, ◌==◌, string_eq,
  is_empty, length, not, map, contains, if◌then◌else◌,
}
use paper_to_pipeline.Base.Text.{append}
use paper_to_pipeline.Base.Dict.{Dict, get}
use paper_to_pipeline.Base.Json.{Json, obj}
use paper_to_pipeline.Base.Numbers.{Arith, zero_num, neg}
use paper_to_pipeline.Results.{TraceOutcome, PerformanceResult}
use paper_to_pipeline.Runner.Plan.{
  Executor, Library, Companion, BaselineSource, recorded, measure_feature_off, PerformanceEntry,
}
use paper_to_pipeline.Runner.Pointer.{resolve, metrics_of}
use paper_to_pipeline.Runner.Conditions.{Why}
use paper_to_pipeline.Runner.Measure.{measure, traces_of, timeout_of, side_tail}

pub data Message (A : Type 0) : Type 0 where
  not_held : (feature_on : Option Bool) → Why A → Message A
  no_workload : (trace_list : Option String) → Message A
  no_measurement : (metric : String) (n_traces : ℕ) (failed : List String) → Message A
  no_baseline_value : (metric : String) → BaselineSource → Message A
  undefined_improvement : (metric : String) → Message A
  below_floor :
      (metric : String) (improvement baseline measured : A) (direction : String) (floor : A)
      → Message A
  companion_not_measured : (metric : String) → Message A
  companion_regressed : (metric : String) (regression baseline measured band : A) → Message A
  below_claim : (id metric : String) (improvement target : A) (claim_source : String) → Message A

module _ {A : Type 0} ⦃n : Arith A⦄ where
  unfoldable pub relative_improvement : (baseline measured : A) (direction : String) → A
  relative_improvement baseline measured direction =
      n.div (if direction == "decrease" then n.sub baseline measured else n.sub measured baseline)
        (n.abs baseline)

  -- The body of the companions' loop, at the values that the two sides measured.
  unfoldable pub companion_reason : Companion A → (measured baseline : Option A) → List (Message A)
  unfolding relative_improvement
  companion_reason c (some measured) (some baseline) =
      let ri = relative_improvement baseline measured c.direction in
      if n.lt c.max_relative_regression (neg ri)
      then companion_regressed c.metric (neg ri) baseline measured c.max_relative_regression ∷ []
      else []
  companion_reason c _ _ = companion_not_measured c.metric ∷ []

  unfoldable pub companion_reasons :
      List (Companion A) → (on_metrics base_metrics : Dict A) → List (Message A)
  unfolding companion_reason
  companion_reasons [] on_metrics base_metrics = []
  companion_reasons (c ∷ cs) on_metrics base_metrics =
      companion_reason c (get c.metric on_metrics) (get c.metric base_metrics)
      ++ companion_reasons cs on_metrics base_metrics

  unfoldable pub block_reasons :
      PerformanceEntry A
      → (improvement baseline measured : A) (on_metrics base_metrics : Dict A) → List (Message A)
  unfolding companion_reasons
  block_reasons entry ri baseline measured on_metrics base_metrics =
      (if not (n.lt entry.min_relative_improvement ri)
        then below_floor entry.metric ri baseline measured entry.direction
            entry.min_relative_improvement
          ∷ []
        else [])
      ++ companion_reasons entry.no_regression on_metrics base_metrics

  -- From the improvement on: the block threshold, then the warning.
  unfoldable pub judge :
      PerformanceEntry A
      → PerformanceResult A (Message A)
      → (baseline measured : A) (on_metrics base_metrics : Dict A) → PerformanceResult A (Message A)
  unfolding block_reasons
  judge entry out baseline measured on_metrics base_metrics =
      let ri = relative_improvement baseline measured entry.direction in
      let target = entry.target_relative_improvement in
      let reasons = block_reasons entry ri baseline measured on_metrics base_metrics in
      let warn_passed = n.lt target ri || n.eq ri target in
      record out {
        relative_improvement = some ri;
        block_passed = is_empty reasons;
        reason = reasons;
        warn_passed = warn_passed;
        warning =
            if warn_passed
            then []
            else below_claim entry.id entry.metric ri target entry.claim_source ∷ [];
      }

  -- From `if metric not in base_metrics` on, at the baseline that was found.
  unfoldable pub compare_baseline :
      PerformanceEntry A
      → PerformanceResult A (Message A)
      → (baseline : Option A) (measured : A) (on_metrics base_metrics : Dict A)
      → PerformanceResult A (Message A)
  unfolding judge
  compare_baseline entry out none measured on_metrics base_metrics = record out {
    reason = no_baseline_value entry.metric entry.baseline ∷ [];
  }
  compare_baseline entry out (some baseline) measured on_metrics base_metrics =
      if n.eq baseline zero_num
      then record out { baseline = some baseline; reason = undefined_improvement entry.metric ∷ [] }
      else judge entry (record out { baseline = some baseline }) baseline measured on_metrics
          base_metrics

  abbrev pub compare_sides :
      PerformanceEntry A
      → PerformanceResult A (Message A)
      → (measured : A) (on_metrics base_metrics : Dict A) → PerformanceResult A (Message A)
  compare_sides entry out measured on_metrics base_metrics =
      compare_baseline entry out (get entry.metric base_metrics) measured on_metrics base_metrics

-- `for trace in off.failed: if trace not in out.failed_traces`
unfoldable pub add_failed : List String → List String → List String
unfolding contains
add_failed failed [] = failed
add_failed failed (trace ∷ more) =
    add_failed (if not (contains failed trace) then failed ++ trace ∷ [] else failed) more

-- The two sides' logs, the feature-on run last.
abbrev pub join_tails : String → String → String
join_tails off_tail on_tail =
    if off_tail == ""
    then on_tail
    else if on_tail == ""
    then off_tail
    else append off_tail (append "\n" on_tail)

module _ {A : Type 0} where
  -- The result before anything is measured.
  abbrev pub unmeasured : PerformanceEntry A → ℕ → PerformanceResult A (Message A)
  unmeasured entry n_traces = record {
    id = entry.id;
    metric = entry.metric;
    direction = entry.direction;
    baseline = none;
    measured = none;
    relative_improvement = none;
    block_passed = false;
    warn_passed = false;
    reason = [];
    warning = [];
    n_traces = n_traces;
    failed_traces = [];
    log_tail = "";
  }

  -- `wanted`
  abbrev pub wanted_metrics : PerformanceEntry A → List String
  wanted_metrics entry = entry.metric ∷ map (λ c. c.metric) entry.no_regression

  unfoldable pub recorded_metrics : Json A → Dict A
  recorded_metrics (obj base) = metrics_of base
  recorded_metrics _ = []

module _ {S A H : Type 0} ⦃n : Arith A⦄ (executor : Executor S A H) (lib : Library) where
  -- `base_metrics`, with what the feature-off run adds to the result.
  unfoldable pub baseline_side :
      PerformanceEntry A
      → (traces : List String) → Json A
      → BaselineSource
      → PerformanceResult A (Message A)
      → S
      → (Dict A × PerformanceResult A (Message A)) × S
  unfolding measure side_tail add_failed recorded_metrics
  baseline_side entry traces document (recorded pointer) out s =
      ((recorded_metrics (resolve document pointer), out), s)
  baseline_side entry traces document measure_feature_off out s =
      let (off, s') =
        measure executor traces entry.workload.run false (timeout_of entry.workload.timeout) s in
      let off_tail = side_tail "feature-off" off (wanted_metrics entry) in
      (
        (
          off.metrics,
          record out {
            log_tail = join_tails off_tail out.log_tail;
            failed_traces = add_failed out.failed_traces off.failed;
          },
        ),
        s',
      )

  -- From `if metric not in on.metrics` on, at the value that was found.
  unfoldable pub run_baseline :
      PerformanceEntry A
      → (traces : List String) → Json A
      → PerformanceResult A (Message A)
      → (on : TraceOutcome A) (measured : Option A) → S
      → PerformanceResult A (Message A) × S
  unfolding baseline_side compare_baseline
  run_baseline entry traces document out on none s =
      (record out { reason = no_measurement entry.metric (length traces) on.failed ∷ [] }, s)
  run_baseline entry traces document out on (some measured) s =
      let ((base_metrics, out'), s') =
        baseline_side entry traces document entry.baseline (record out { measured = some measured })
          s in
      (compare_sides entry out' measured on.metrics base_metrics, s')

  -- The feature-on run, and what follows it.
  unfoldable pub run_sides :
      PerformanceEntry A → (traces : List String) → Json A → S → PerformanceResult A (Message A) × S
  unfolding run_baseline
  run_sides entry traces document s =
      let (on, s') =
        measure executor traces entry.workload.run true (timeout_of entry.workload.timeout) s in
      run_baseline entry traces document
        (record (unmeasured entry (length traces)) {
          failed_traces = on.failed;
          log_tail = side_tail "feature-on" on (wanted_metrics entry);
        })
        on (get entry.metric on.metrics) s'

  unfoldable pub run_performance :
      PerformanceEntry A → Json A → S → PerformanceResult A (Message A) × S
  unfolding run_sides
  run_performance entry document s =
      let traces = traces_of lib entry.workload in
      if is_empty traces
      then (record (unmeasured entry 0) { reason = no_workload entry.workload.trace_list ∷ [] }, s)
      else run_sides entry traces document s

-- ===== src/Runner/Tests.antt =====
-- A small host and plan, and the runner's theorems at them.
use paper_to_pipeline.Base.{
  ℕ, suc, ◌≡◌, refl, ◌↔◌, true, false, none, some, [], ◌∷◌, map, All, In, is_empty, if◌then◌else◌,
  ◌==◌, string_eq, bool_beq, list_beq,
}
use paper_to_pipeline.Base.Int.{ℤ, pos, int_arith, int_signs}
use paper_to_pipeline.Base.Text.{last_chars, replace_from}
use paper_to_pipeline.Base.Dict.{get}
use paper_to_pipeline.Base.Json.{null, num, arr, obj, nil, item, end, field}
use paper_to_pipeline.Results.{ShellOutcome}
use paper_to_pipeline.Gate.{
  check_gate, gate_reasons, missing_baseline_reasons, baseline_reasons, correctness_reasons,
  smoke_reasons, performance_reasons, performance_reason,
}
use paper_to_pipeline.Runner.Plan.{
  Executor, Library, exit_zero, both, off, CorrectnessEntry, PerformanceEntry, host_adapter,
  Workload, measure_feature_off, TestPlan, states, default_timeout,
}
use paper_to_pipeline.Runner.Pointer.{resolve, descend}
use paper_to_pipeline.Runner.Conditions.{evaluate_condition}
use paper_to_pipeline.Runner.Conditions.Holding.{Holds, evaluate_condition-Holds}
use paper_to_pipeline.Runner.Measure.{traces_of}
use paper_to_pipeline.Runner.Performance.{run_performance}
use paper_to_pipeline.Runner.Performance.Judged.{
  Improves, side, baseline_metrics, run_performance-Improves, run_performance-moved,
}
use paper_to_pipeline.Runner.Run.{Key, run_correctness, run_test_plan}
use paper_to_pipeline.Runner.Run.Cache.{logging, Distinct, asked, run_correctness-Distinct}
use paper_to_pipeline.Runner.Run.Whole.{HoldsIn, run_test_plan-HoldsIn, run_test_plan-covers}

-- Its world counts the calls; the feature raises "ipc" from 100 to 300.
abbrev host : Executor ℕ ℤ Unit
host = record {
  build = λ on timeout s. (record { succeeded = true; log = "built"; handle = none }, suc s);
  shell = λ command on env timeout s.
      (record { exit_code = pos 0; output = "ok"; timed_out = false }, suc s);
  parse_metrics = λ output. [];
  run_traces = λ traces on timeout s. (
    record {
      succeeded = true;
      metrics = ("ipc", if on then pos 300 else pos 100) ∷ [];
      failed = [];
      log_tail = "";
    },
    suc s,
  );
}

abbrev library : Library
library = record { search = λ pattern text. none; read_lines = λ path. none }

abbrev workload : Workload
workload = record { traces = "t1" ∷ []; trace_list = none; run = host_adapter; timeout = none }

abbrev make_test : CorrectnessEntry ℤ
make_test = record {
  id = "unit";
  kind = "unit";
  command = "make test";
  feature_state = both;
  env = [];
  timeout = none;
  pass_condition = exit_zero;
  clean_tree = record { exit_code = none; summary = none };
}

abbrev make_off : CorrectnessEntry ℤ
make_off = record make_test { id = "off"; kind = "feature_off_baseline"; feature_state = off }

abbrev speedup : PerformanceEntry ℤ
speedup = record {
  id = "ipc";
  metric = "ipc";
  direction = "increase";
  workload = workload;
  baseline = measure_feature_off;
  min_relative_improvement = pos 0;
  no_regression = [];
  target_relative_improvement = pos 1;
  claim_source = "Table 2";
}

abbrev plan : TestPlan ℤ
plan = record {
  metric_keys = "ipc" ∷ [];
  baseline_rel_tol = none;
  correctness = make_test ∷ make_off ∷ [];
  smoke = some workload;
  performance = speedup ∷ [];
}

abbrev ok : ShellOutcome
ok = record { exit_code = pos 0; output = "ok"; timed_out = false }

opened : Unit {0}
unfolding check_gate run_test_plan run_correctness run_performance evaluate_condition traces_of
    last_chars gate_reasons missing_baseline_reasons baseline_reasons bool_beq list_beq
    correctness_reasons smoke_reasons performance_reasons performance_reason
opened = tt

resolve-run :
    resolve (obj (field "a/b" (arr (item (num (pos 1)) (item (num (pos 2)) nil))) end)) "/a~1b/1"
    ≡ num (pos 2)
unfolding resolve descend replace_from
resolve-run = refl

-- Three states share one command and environment: two runs.
run_correctness-calls :
    (run_correctness library plan null host plan.correctness []
      (record { cache = []; world = 0 })).1.world
    ≡ 2
unfolding opened
run_correctness-calls = refl

evaluate_condition-Holds_example : (evaluate_condition library make_test ok [] plan null ≡ none) ↔ (
    (ok.timed_out ≡ false)
    × Holds library make_test.pass_condition make_test.clean_tree ok [] plan null)
evaluate_condition-Holds_example = evaluate_condition-Holds library make_test ok [] plan null

run_performance-Improves_example :
    ((run_performance host library speedup null 0).0.block_passed ≡ true) ↔ (
      let traces = traces_of library speedup.workload in
      let (on, s') = side host speedup traces true 0 in
      let base_metrics = baseline_metrics host speedup traces null speedup.baseline s' in
      (is_empty traces ≡ false)
      × Improves speedup
          (get speedup.metric base_metrics)
          (get speedup.metric on.metrics)
          on.metrics
          base_metrics)
run_performance-Improves_example = run_performance-Improves host library speedup null 0

run_performance-moved_example :
    (let traces = traces_of library speedup.workload in
      let (on, s') = side host speedup traces true 0 in
      let base_metrics = baseline_metrics host speedup traces null speedup.baseline s' in
      (measured : ℤ) × (baseline : ℤ) × (get speedup.metric on.metrics ≡ some measured)
      × (get speedup.metric base_metrics ≡ some baseline)
      × ((if speedup.direction == "decrease"
            then int_arith.lt measured baseline
            else int_arith.lt baseline measured)
          ≡ true))
unfolding opened
run_performance-moved_example =
    run_performance-moved host library int_signs speedup null 0 refl refl

run_correctness-Distinct_example :
    (let log =
        (run_correctness library plan null
          (logging host)
          plan.correctness
          []
          (record { cache = []; world = ([], 0) })).1.world.0 in
      Distinct log × ((k : Key) → In k log ↔ In k (asked plan.correctness)))
run_correctness-Distinct_example =
    run_correctness-Distinct host library plan null plan.correctness 0

run_test_plan-HoldsIn_example :
    (let (build, s') = host.build false default_timeout 0 in
      let session =
        (run_correctness library plan null host plan.correctness []
          (record { cache = []; world = s' })).1 in
      (build.succeeded ≡ true)
      × All
          (λ entry.
            All
              (HoldsIn library plan null host s' session.cache entry)
              (states entry.feature_state))
          plan.correctness)
unfolding opened
run_test_plan-HoldsIn_example = run_test_plan-HoldsIn host library plan null 0 refl

run_test_plan-covers_example :
    (let report = (run_test_plan host library plan null 0).0 in
      (map (λ r. r.id) report.correctness ≡ map (λ e. e.id) plan.correctness)
      × (map (λ r. r.id) report.performance ≡ map (λ e. e.id) plan.performance))
run_test_plan-covers_example = run_test_plan-covers host library plan null 0 refl

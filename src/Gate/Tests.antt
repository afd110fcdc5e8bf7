-- ===== src/Gate/Tests.antt =====
-- Runs of the gate, and the gate's theorems at concrete results.
use paper_to_pipeline.Base.{◌≡◌, refl, ◌↔◌, String, true, false, none, some, [], ◌∷◌, All}
use paper_to_pipeline.Base.Text.{last_chars}
use paper_to_pipeline.Base.Dict.{Dict, get}
use paper_to_pipeline.Base.Int.{ℤ, pos, int_arith, int_finite}
use paper_to_pipeline.Results.{CorrectnessResult, PerformanceResult, TestPlanResults}
use paper_to_pipeline.Gate.{
  check_gate, with_log_tail, metric_differences, gate_reasons, baseline_reasons,
  correctness_reasons, missing_baseline_reasons, smoke_reasons, performance_reasons,
  performance_reason, performance_warnings, key_difference, differs, missing, traces_failed,
}
use paper_to_pipeline.Gate.Verdict.{Passes, check_gate-Passes, silenced, check_gate-silenced}
use paper_to_pipeline.Gate.Baseline.{Agrees, metric_differences-Agrees, metric_differences_self}

abbrev feature_off : CorrectnessResult ℤ String
feature_off = record {
  id = "off";
  kind = "feature_off_baseline";
  passed = true;
  reason = [];
  metrics = [];
}

abbrev speedup : PerformanceResult ℤ String
speedup = record {
  id = "ipc";
  metric = "ipc";
  direction = "increase";
  baseline = some (pos 100);
  measured = some (pos 300);
  relative_improvement = some (pos 2);
  block_passed = true;
  warn_passed = false;
  reason = [];
  warning = "short of the claim" ∷ [];
  n_traces = 1;
  failed_traces = [];
  log_tail = "";
}

abbrev clean : TestPlanResults ℤ String
clean = record {
  build_ok = true;
  build_log_tail = "";
  feature_off_metrics = [];
  correctness = feature_off ∷ [];
  performance = speedup ∷ [];
  smoke_ok = true;
  smoke_failures = [];
  smoke_log_tail = "";
}

abbrev crashed : TestPlanResults ℤ String
crashed = record clean {
  performance = record speedup { failed_traces = "t1" ∷ []; log_tail = "panic" } ∷ [];
}

opened : Unit {0}
unfolding check_gate gate_reasons baseline_reasons correctness_reasons missing_baseline_reasons
    smoke_reasons performance_reasons performance_reason performance_warnings with_log_tail
    last_chars
opened = tt

check_gate-clean :
    check_gate clean
    ≡ record { passed = true; reasons = []; warnings = ("short of the claim" ∷ []) ∷ [] }
unfolding opened
check_gate-clean = refl

check_gate-crashed :
    (check_gate crashed).reasons
    ≡ record { reason = traces_failed "ipc" 1 1 ("t1" ∷ []); log = some "panic" } ∷ []
unfolding opened
check_gate-crashed = refl

abbrev recorded : Dict ℤ
recorded = ("ipc", pos 10) ∷ ("mpki", pos 4) ∷ []

metric_differences-run :
    metric_differences recorded (("ipc", pos 31) ∷ []) ("ipc" ∷ "mpki" ∷ []) (pos 1)
    ≡ differs "ipc" (pos 31) (pos 10) (pos 1) ∷ missing "mpki" (some (pos 4)) none ∷ []
unfolding metric_differences key_difference
metric_differences-run = refl

check_gate-Passes_example : ((check_gate clean).passed ≡ true) ↔ Passes clean
check_gate-Passes_example = check_gate-Passes clean

check_gate-silenced_example :
    ((check_gate (silenced clean)).passed ≡ (check_gate clean).passed)
    × ((check_gate (silenced clean)).reasons ≡ (check_gate clean).reasons)
    × ((check_gate (silenced clean)).warnings ≡ [])
check_gate-silenced_example = check_gate-silenced clean

metric_differences-Agrees_example :
    (metric_differences recorded recorded ("ipc" ∷ "mpki" ∷ []) (pos 0) ≡ [])
    ↔ All (λ key. Agrees (get key recorded) (get key recorded) (pos 0)) ("ipc" ∷ "mpki" ∷ [])
metric_differences-Agrees_example =
    metric_differences-Agrees recorded recorded ("ipc" ∷ "mpki" ∷ []) (pos 0)

metric_differences_self_example :
    metric_differences recorded recorded ("ipc" ∷ "mpki" ∷ []) (pos 0) ≡ []
metric_differences_self_example =
    metric_differences_self (λ _. Unit) int_finite recorded ("ipc" ∷ "mpki" ∷ []) (pos 0) refl
      ((pos 10, refl, tt), ((pos 4, refl, tt), tt))

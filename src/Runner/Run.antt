-- ===== src/Runner/Run.antt =====
-- Running a whole test plan (loop/plan_runner.py, `run_test_plan`): the build, the correctness
-- entries over a cache of shell runs, the smoke section, and the performance entries.
pub mod Cache
pub mod Kept
pub mod Whole
use paper_to_pipeline.Base.{
  ℕ, String, Bool, true, false, Option, none, some, List, [], ◌∷◌, ◌++◌, ◌==◌, string_eq, bool_eq,
  pair_eq, list_eq, is_empty, not, map, ◌&&◌, Eq, if◌then◌else◌,
}
use paper_to_pipeline.Base.Text.{last_chars}
use paper_to_pipeline.Base.Dict.{Dict, update}
use paper_to_pipeline.Base.Json.{Json}
use paper_to_pipeline.Base.Numbers.{Arith}
use paper_to_pipeline.Results.{
  ShellOutcome, BuildOutcome, CorrectnessResult, PerformanceResult, SmokeFailure, trace,
  no_trace_list, TestPlanResults,
}
use paper_to_pipeline.Runner.Plan.{
  Executor, Library, FeatureState, off, on, both, states, CorrectnessEntry, PerformanceEntry,
  Workload, TestPlan, default_timeout,
}
use paper_to_pipeline.Runner.Conditions.{Why, evaluate_condition}
use paper_to_pipeline.Runner.Measure.{measure, traces_of, timeout_of}
use paper_to_pipeline.Runner.Performance.{Message, not_held, run_performance}

-- The key of the cache: the command, the state of the feature, and the environment, which is listed
-- in the order of its names, as `tuple(sorted(env.items()))` is.
abbrev pub Key : Type 0
Key = String × (Bool × Dict String)

abbrev pub key_eq : Eq Key
key_eq =
    let strings : Eq (String × String) = pair_eq ⦃e = string_eq⦄ ⦃f = string_eq⦄ in
    let env : Eq (Dict String) = list_eq ⦃e = strings⦄ in
    let state : Eq (Bool × Dict String) = pair_eq ⦃e = bool_eq⦄ ⦃f = env⦄ in
    pair_eq ⦃e = string_eq⦄ ⦃f = state⦄

-- What the cache remembers of a run: the outcome, and the metrics parsed from it.
abbrev pub Seen : Type 0 → Type 0
Seen A = ShellOutcome × Dict A

unfoldable pub lookup : {V : Type 0} → Key → List (Key × V) → Option V
lookup key [] = none
lookup key ((k, v) ∷ cache) = if key_eq.beq k key then some v else lookup key cache

-- The cache, and the world of the host.
pub record Session (S A : Type 0) : Type 0 where
  pub cache : List (Key × Seen A)
  pub world : S

-- `reasons`, `metrics` and the feature-off metrics, over the states of one entry
pub record Progress (A : Type 0) : Type 0 where
  pub reasons : List (Message A)
  pub metrics : Dict A
  pub off_metrics : Dict A

module _ {S A H : Type 0} (executor : Executor S A H) where
  -- What `run_once` does about what the cache has.
  unfoldable pub run_cached :
      Option (Seen A) → Key → (timeout : ℕ) → Session S A → Seen A × Session S A
  run_cached (some seen) key timeout session = (seen, session)
  run_cached none (command, (feature_on, env)) timeout session =
      let (outcome, s) = executor.shell command feature_on env timeout session.world in
      let seen : Seen A = (outcome, executor.parse_metrics outcome.output) in
      (
        seen,
        record { cache = session.cache ++ ((command, (feature_on, env)), seen) ∷ []; world = s },
      )

  unfoldable pub run_once : Key → (timeout : ℕ) → Session S A → Seen A × Session S A
  unfolding run_cached lookup
  run_once key timeout session = run_cached (lookup key session.cache) key timeout session

-- `f"{label}: {why}" if entry["feature_state"] == "both" else why`
unfoldable pub label_of : FeatureState → Bool → Option Bool
label_of both feature_on = some feature_on
label_of off feature_on = none
label_of on feature_on = none

-- `if why: reasons.append(...)`
unfoldable pub add_reason :
    {A : Type 0} (label : Option Bool) → Option (Why A) → List (Message A) → List (Message A)
add_reason label none reasons = reasons
add_reason label (some why) reasons = reasons ++ not_held label why ∷ []

module _ {A : Type 0} ⦃n : Arith A⦄ (lib : Library) (plan : TestPlan A) (baseline : Json A) where
  -- What one state's run adds to an entry.
  unfoldable pub note_state : CorrectnessEntry A → Bool → Seen A → Progress A → Progress A
  unfolding evaluate_condition label_of add_reason
  note_state entry feature_on (outcome, metrics) p = record {
    reasons =
        add_reason (label_of entry.feature_state feature_on)
          (evaluate_condition lib entry outcome metrics plan baseline) p.reasons;
    metrics = metrics;
    off_metrics =
        if (entry.kind == "feature_off_baseline") && not feature_on
        then update p.off_metrics metrics
        else p.off_metrics;
  }

  unfoldable pub correctness_result :
      CorrectnessEntry A → Progress A → CorrectnessResult A (Message A)
  correctness_result entry p = record {
    id = entry.id;
    kind = entry.kind;
    passed = is_empty p.reasons;
    reason = p.reasons;
    metrics = p.metrics;
  }

  module _ {S H : Type 0} (executor : Executor S A H) where
    unfoldable pub run_states :
        CorrectnessEntry A → List Bool → Progress A → Session S A → Progress A × Session S A
    unfolding run_once note_state
    run_states entry [] p session = (p, session)
    run_states entry (feature_on ∷ more) p session =
        let (seen, session') =
          run_once executor (entry.command, (feature_on, entry.env)) (timeout_of entry.timeout)
            session in
        run_states entry more (note_state entry feature_on seen p) session'

    -- The loop over the correctness entries, and the feature-off metrics that it gathers.
    unfoldable pub run_correctness :
        List (CorrectnessEntry A)
        → (off_metrics : Dict A) → Session S A
        → (List (CorrectnessResult A (Message A)) × Dict A) × Session S A
    unfolding run_states correctness_result states
    run_correctness [] off_metrics session = (([], off_metrics), session)
    run_correctness (entry ∷ entries) off_metrics session =
        let (p, session') =
          run_states entry (states entry.feature_state)
            (record { reasons = []; metrics = []; off_metrics = off_metrics }) session in
        let ((results, off'), session'') = run_correctness entries p.off_metrics session' in
        ((correctness_result entry p ∷ results, off'), session'')

module _ {S A H : Type 0} ⦃n : Arith A⦄ (executor : Executor S A H) (lib : Library) where
  -- `smoke_ok`, `smoke_failures` and `smoke_log_tail`
  unfoldable pub run_smoke : Option Workload → S → (Bool × List SmokeFailure × String) × S
  unfolding measure traces_of
  run_smoke none s = ((false, [], ""), s)
  run_smoke (some smoke) s =
      let traces = traces_of lib smoke in
      if is_empty traces
      then ((false, no_trace_list smoke.trace_list ∷ [], ""), s)
      else let (outcome, s') =
          measure executor traces smoke.run true (timeout_of smoke.timeout) s in
        ((outcome.succeeded, map trace outcome.failed, outcome.log_tail), s')

  unfoldable pub run_performances :
      List (PerformanceEntry A) → Json A → S → List (PerformanceResult A (Message A)) × S
  unfolding run_performance
  run_performances [] baseline s = ([], s)
  run_performances (entry ∷ entries) baseline s =
      let (result, s') = run_performance executor lib entry baseline s in
      let (results, s'') = run_performances entries baseline s' in (result ∷ results, s'')

  -- What follows a build that succeeded.
  unfoldable pub run_entries :
      TestPlan A → Json A → (build_log_tail : String) → S → TestPlanResults A (Message A) × S
  unfolding run_correctness run_smoke run_performances
  run_entries plan baseline build_log_tail s =
      let ((correctness, off_metrics), session) =
        run_correctness lib plan baseline executor plan.correctness []
          (record { cache = []; world = s }) in
      let ((smoke_ok, smoke_failures, smoke_log), s') = run_smoke plan.smoke session.world in
      let (performance, s'') = run_performances plan.performance baseline s' in
      (
        record {
          build_ok = true;
          build_log_tail = build_log_tail;
          feature_off_metrics = off_metrics;
          correctness = correctness;
          performance = performance;
          smoke_ok = smoke_ok;
          smoke_failures = smoke_failures;
          smoke_log_tail = smoke_log;
        },
        s'',
      )

  unfoldable pub run_test_plan : TestPlan A → Json A → S → TestPlanResults A (Message A) × S
  unfolding run_entries last_chars
  run_test_plan plan baseline s =
      let (build, s') = executor.build false default_timeout s in
      let log = last_chars 4000 build.log in
      if not build.succeeded
      then (
        record {
          build_ok = false;
          build_log_tail = log;
          feature_off_metrics = [];
          correctness = [];
          performance = [];
          smoke_ok = false;
          smoke_failures = [];
          smoke_log_tail = "";
        },
        s',
      )
      else run_entries plan baseline log s'

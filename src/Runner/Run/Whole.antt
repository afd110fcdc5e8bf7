-- ===== src/Runner/Run/Whole.antt =====
-- What a run of a test plan reports (loop/plan_runner.py, `run_test_plan`).
use paper_to_pipeline.Base.{
  ◌≡◌, refl, inl, inr, String, Bool, true, false, Option, none, some, List, [], ◌∷◌, ◌++◌, map, All,
  All_mono, arith, is_empty_iff, ap, ◌∙◌, Bool-cases,
}
use paper_to_pipeline.Base.Dict.{Dict, get}
use paper_to_pipeline.Base.Json.{Json}
use paper_to_pipeline.Base.Numbers.{Arith}
use paper_to_pipeline.Results.{TraceOutcome, PerformanceResult}
use paper_to_pipeline.Gate.{check_gate}
use paper_to_pipeline.Gate.Verdict.{check_gate-Passes}
use paper_to_pipeline.Runner.Plan.{
  Executor, Library, states, CorrectnessEntry, PerformanceEntry, BaselineSource, recorded,
  measure_feature_off, TestPlan, default_timeout,
}
use paper_to_pipeline.Runner.Measure.{measure, timeout_of, traces_of}
use paper_to_pipeline.Runner.Conditions.{Why}
use paper_to_pipeline.Runner.Conditions.Holding.{Holds, evaluate_condition-Holds}
use paper_to_pipeline.Runner.Performance.{
  Message, compare_baseline, judge, baseline_side, run_baseline, run_sides, run_performance,
}
use paper_to_pipeline.Runner.Run.Kept.{
  Keeps, lookup_All, start, Ran, Kept, run_once-Kept, run_once-Keeps,
}
use paper_to_pipeline.Runner.Run.{
  Key, Seen, lookup, Session, Progress, run_once, note_state, add_reason, run_states,
  correctness_result, run_correctness, run_performances, run_entries, run_test_plan,
}

snoc-ne-nil : {A : Type 0} (xs : List A) (x : A) → ¬ (xs ++ x ∷ [] ≡ [])
snoc-ne-nil [] x h = cc
snoc-ne-nil (y ∷ xs) x h = cc

add_reason-nil :
    {A : Type 0} (label : Option Bool) (why : Option (Why A)) (reasons : List (Message A))
    → add_reason label why reasons ≡ []
    → (reasons ≡ []) × (why ≡ none)
unfolding add_reason
add_reason-nil label none reasons h = (h, refl)
add_reason-nil label (some why) reasons h = absurd (snoc-ne-nil reasons _ h)

module _ {S A H : Type 0} ⦃n : Arith A⦄ (lib : Library) (plan : TestPlan A) (baseline : Json A)
    (executor : Executor S A H) where
  -- The executor ran the entry's command in one state of the feature and under the entry's
  -- environment, in a world reached from `base`; the run is in the cache, it ended in time, and the
  -- entry's condition holds of its outcome and the metrics parsed from it.
  abbrev pub HoldsIn : S → List (Key × Seen A) → CorrectnessEntry A → Bool → Type 0
  HoldsIn base cache entry on =
      (seen : Seen A) × (lookup (entry.command, (on, entry.env)) cache ≡ some seen)
      × Ran executor base (entry.command, (on, entry.env)) seen
      × (seen.0.timed_out ≡ false)
      × Holds lib entry.pass_condition entry.clean_tree seen.0 seen.1 plan baseline

  HoldsIn-mono :
      (base : S) (before after : List (Key × Seen A)) (entry : CorrectnessEntry A) (on : Bool)
      → Keeps before after
      → HoldsIn base before entry on
      → HoldsIn base after entry on
  HoldsIn-mono base before after entry on keeps (seen, e, is_ran, in_time, holds) =
      (seen, keeps _ seen e, is_ran, in_time, holds)

  note_state-Holds :
      (entry : CorrectnessEntry A) (on : Bool) (seen : Seen A) (p : Progress A)
      → (note_state lib plan baseline entry on seen p).reasons ≡ []
      → (p.reasons ≡ [])
        × (seen.0.timed_out ≡ false)
        × Holds lib entry.pass_condition entry.clean_tree seen.0 seen.1 plan baseline
  unfolding note_state
  note_state-Holds entry on (outcome, metrics) p h =
      let (empty, none_raised) = add_reason-nil _ _ p.reasons h in
      let (in_time, holds) =
        (evaluate_condition-Holds lib entry outcome metrics plan baseline).0 none_raised in
      (empty, in_time, holds)

  run_states-Holds :
      (base : S) (entry : CorrectnessEntry A) (more : List Bool) (p : Progress A)
      (session : Session S A)
      → Kept executor base session
      → (let (p', after) = run_states lib plan baseline executor entry more p session in
          Kept executor base after
          × Keeps session.cache after.cache
          × (p'.reasons ≡ [] → (p.reasons ≡ []) × All (HoldsIn base after.cache entry) more))
  unfolding run_states
  run_states-Holds base entry [] p session well = (well, λ k v h. h, λ h. (h, tt))
  run_states-Holds base entry (on ∷ more) p session well =
      let key : Key = (entry.command, (on, entry.env)) in
      let limit = timeout_of entry.timeout in
      let (seen, next) = run_once executor key limit session in
      let (kept, answered) = run_once-Keeps executor key limit session in
      let still = run_once-Kept executor base key limit session well in
      let is_ran = lookup_All (Ran executor base) key next.cache seen still.1 answered in
      let (last, keeps, rest) =
        run_states-Holds base entry more (note_state lib plan baseline entry on seen p) next
          still in
      (
        last,
        λ k v h. keeps k v (kept k v h),
        λ h.
            let (clean, held) = rest h in
            let (empty, in_time, holds) = note_state-Holds entry on seen p clean in
            (empty, ((seen, keeps key seen answered, is_ran, in_time, holds), held)),
      )

  run_correctness-Holds :
      (base : S) (entries : List (CorrectnessEntry A)) (off_metrics : Dict A)
      (session : Session S A)
      → Kept executor base session
      → (let (found, after) =
            run_correctness lib plan baseline executor entries off_metrics session in
          Keeps session.cache after.cache
          × (All (λ r. r.passed ≡ true) found.0
              → All
                  (λ entry. All (HoldsIn base after.cache entry) (states entry.feature_state))
                  entries))
  unfolding run_correctness correctness_result
  run_correctness-Holds base [] off_metrics session well = (λ k v h. h, λ _. tt)
  run_correctness-Holds base (entry ∷ entries) off_metrics session well =
      let begin : Progress A = record { reasons = []; metrics = []; off_metrics = off_metrics } in
      let (p, next) =
        run_states lib plan baseline executor entry (states entry.feature_state) begin session in
      let (still, kept, first) =
        run_states-Holds base entry (states entry.feature_state) begin session well in
      let (keeps, rest) = run_correctness-Holds base entries p.off_metrics next still in
      (
        λ k v h. keeps k v (kept k v h),
        λ (passed, others). (
          All_mono _ _ (states entry.feature_state)
              (λ on _ held. HoldsIn-mono base _ _ entry on keeps held)
              (first ((is_empty_iff p.reasons).0 passed)).1,
          rest others,
        ),
      )

module _ {S A H : Type 0} ⦃n : Arith A⦄ (executor : Executor S A H) (lib : Library) where
  -- If the gate passes what a run of the test plan reports, then the host was built, and for every
  -- correctness entry and each of its states the cache has what the executor's shell gave for the
  -- entry's command, in that state, under the entry's environment, in a world that the shell runs
  -- after the build reached; this run ended in time, and the entry's pass condition holds of its
  -- outcome and of the metrics parsed from its output. Entries with the same key share one run.
  pub run_test_plan-HoldsIn :
      (plan : TestPlan A) (baseline : Json A) (s : S)
      → (check_gate (run_test_plan executor lib plan baseline s).0).passed ≡ true
      → (let (build, s') = executor.build false default_timeout s in
          let session =
            (run_correctness lib plan baseline executor plan.correctness []
              (record { cache = []; world = s' })).1 in
          (build.succeeded ≡ true)
          × All
              (λ entry.
                All
                  (HoldsIn lib plan baseline executor s' session.cache entry)
                  (states entry.feature_state))
              plan.correctness)
  unfolding run_test_plan run_entries
  run_test_plan-HoldsIn plan baseline s h =
      let p = (check_gate-Passes (run_test_plan executor lib plan baseline s).0).0 h in
      elim (Bool-cases (executor.build false default_timeout s).0.succeeded) [
        | inl e ↦ (
          e,
          (run_correctness-Holds lib plan baseline executor _ plan.correctness [] _ (start, tt)).1
              (rw e at p.correct),
        )
        | inr e ↦ absurd (ground (arith, e, p.built))
      ]

  judge_id :
      (entry : PerformanceEntry A) (out : PerformanceResult A (Message A)) (found : Option A)
      (measured : A) (on_metrics base_metrics : Dict A)
      → (compare_baseline entry out found measured on_metrics base_metrics).id ≡ out.id
  unfolding compare_baseline judge
  judge_id entry out none measured on_metrics base_metrics = refl
  judge_id entry out (some baseline) measured on_metrics base_metrics = ground arith

  side_id :
      (entry : PerformanceEntry A) (traces : List String) (document : Json A)
      (source : BaselineSource) (out : PerformanceResult A (Message A)) (s : S)
      → (baseline_side executor lib entry traces document source out s).0.1.id ≡ out.id
  unfolding baseline_side
  side_id entry traces document (recorded pointer) out s = refl
  side_id entry traces document measure_feature_off out s = refl

  run_baseline_id :
      (entry : PerformanceEntry A) (traces : List String) (document : Json A)
      (out : PerformanceResult A (Message A)) (on : TraceOutcome A) (found : Option A) (s : S)
      → (run_baseline executor lib entry traces document out on found s).0.id ≡ out.id
  unfolding run_baseline
  run_baseline_id entry traces document out on none s = refl
  run_baseline_id entry traces document out on (some measured) s =
      let out' = record out { measured = some measured } in
      let ((metrics, out''), s') =
        baseline_side executor lib entry traces document entry.baseline out' s in
      judge_id entry out'' (get entry.metric metrics) measured on.metrics metrics
      ∙ side_id entry traces document entry.baseline out' s

  run_sides_id :
      (entry : PerformanceEntry A) (traces : List String) (document : Json A) (s : S)
      → (run_sides executor lib entry traces document s).0.id ≡ entry.id
  unfolding run_sides
  run_sides_id entry traces document s =
      let (on, s') =
        measure executor traces entry.workload.run true (timeout_of entry.workload.timeout) s in
      run_baseline_id entry traces document _ on (get entry.metric on.metrics) s'

  run_performance_id :
      (entry : PerformanceEntry A) (document : Json A) (s : S)
      → (run_performance executor lib entry document s).0.id ≡ entry.id
  unfolding run_performance
  run_performance_id entry document s =
      ground (arith, run_sides_id entry (traces_of lib entry.workload) document s)

  performances_ids :
      (entries : List (PerformanceEntry A)) (baseline : Json A) (s : S)
      → map (λ r. r.id) (run_performances executor lib entries baseline s).0
        ≡ map (λ e. e.id) entries
  unfolding run_performances
  performances_ids [] baseline s = refl
  performances_ids (entry ∷ entries) baseline s = rw (
    run_performance_id entry baseline s,
    performances_ids entries baseline (run_performance executor lib entry baseline s).1,
  )

  correctness_ids :
      (plan : TestPlan A) (baseline : Json A) (entries : List (CorrectnessEntry A))
      (off_metrics : Dict A) (session : Session S A)
      → map (λ r. r.id) (run_correctness lib plan baseline executor entries off_metrics session).0.0
        ≡ map (λ e. e.id) entries
  unfolding run_correctness correctness_result
  correctness_ids plan baseline [] off_metrics session = refl
  correctness_ids plan baseline (entry ∷ entries) off_metrics session =
      ap (λ is. entry.id ∷ is) (correctness_ids plan baseline entries _ _)

  -- After a build that succeeded, the report has one result for each correctness entry and one for
  -- each performance entry of the plan, under the entry's id and in the plan's order.
  pub run_test_plan-covers :
      (plan : TestPlan A) (baseline : Json A) (s : S)
      → (executor.build false default_timeout s).0.succeeded ≡ true
      → (let report = (run_test_plan executor lib plan baseline s).0 in
          (map (λ r. r.id) report.correctness ≡ map (λ e. e.id) plan.correctness)
          × (map (λ r. r.id) report.performance ≡ map (λ e. e.id) plan.performance))
  unfolding run_test_plan run_entries
  run_test_plan-covers plan baseline s e = rw e (
    correctness_ids plan baseline plan.correctness [] _,
    performances_ids plan.performance baseline _,
  )

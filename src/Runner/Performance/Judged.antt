-- ===== src/Runner/Performance/Judged.antt =====
-- When a performance entry's block threshold passes, and what that says of the metric
-- (loop/plan_runner.py, `_run_performance`).
use paper_to_pipeline.Base.{
  ◌≡◌, refl, ◌↔◌, inl, inr, String, Bool, true, false, Option, none, some, List, [], ◌∷◌, All,
  arith, ◌==◌, string_eq, if◌then◌else◌, is_empty, is_empty_iff, append-eq-nil, Bool-cases, sym,
  ◌∙◌,
}
use paper_to_pipeline.Base.Dict.{Dict, get}
use paper_to_pipeline.Base.Json.{Json}
use paper_to_pipeline.Base.Numbers.{Arith, SignLaws, zero_num, neg}
use paper_to_pipeline.Results.{TraceOutcome, PerformanceResult}
use paper_to_pipeline.Runner.Plan.{
  Executor, Library, Companion, BaselineSource, recorded, measure_feature_off, PerformanceEntry,
}
use paper_to_pipeline.Runner.Pointer.{resolve}
use paper_to_pipeline.Runner.Measure.{measure, traces_of, timeout_of}
use paper_to_pipeline.Runner.Performance.{
  Message, compare_baseline, relative_improvement, companion_reason, companion_reasons,
  block_reasons, judge, run_baseline, recorded_metrics, baseline_side, run_sides, run_performance,
}

module _ {A : Type 0} ⦃n : Arith A⦄ where
  -- Both sides measured the companion, and it lost no more than its band.
  pub record Bounded (c : Companion A) (on_value base_value : Option A) : Type 0 where
    pub on : A
    pub base : A
    pub on_measured : on_value ≡ some on
    pub base_measured : base_value ≡ some base
    pub within :
        n.lt c.max_relative_regression (neg (relative_improvement base on c.direction)) ≡ false

  -- The two sides meet the block threshold.
  pub record Improves (entry : PerformanceEntry A) (base_value on_value : Option A)
      (on_metrics base_metrics : Dict A) : Type 0 where
    pub baseline : A
    pub measured : A
    pub base_measured : base_value ≡ some baseline
    pub on_measured : on_value ≡ some measured
    pub nonzero : n.eq baseline zero_num ≡ false
    pub beats :
        n.lt entry.min_relative_improvement (relative_improvement baseline measured entry.direction)
        ≡ true
    pub companions :
        All
          (λ c. Bounded c (get c.metric on_metrics) (get c.metric base_metrics))
          entry.no_regression

  companion-Bounded :
      (c : Companion A) (on_value base_value : Option A)
      → companion_reason c on_value base_value ≡ []
      → Bounded c on_value base_value
  unfolding companion_reason
  companion-Bounded c (some on) (some base) h = record {
    on = on;
    base = base;
    on_measured = refl;
    base_measured = refl;
    within = ground arith;
  }
  companion-Bounded c (some on) none h = cc
  companion-Bounded c none (some base) h = cc
  companion-Bounded c none none h = cc

  Bounded-companion :
      (c : Companion A) (on_value base_value : Option A)
      → Bounded c on_value base_value
      → companion_reason c on_value base_value ≡ []
  unfolding companion_reason
  Bounded-companion c on_value base_value b =
      ground (arith, b.on_measured, b.base_measured, b.within)

  companions_iff :
      (cs : List (Companion A)) (on_metrics base_metrics : Dict A)
      → (companion_reasons cs on_metrics base_metrics ≡ [])
        ↔ All (λ c. Bounded c (get c.metric on_metrics) (get c.metric base_metrics)) cs
  unfolding companion_reasons
  companions_iff [] on_metrics base_metrics = (λ _. tt, λ _. refl)
  companions_iff (c ∷ cs) on_metrics base_metrics = (
    λ h.
        let parts = (append-eq-nil _ _).0 h in
        (companion-Bounded c _ _ parts.0, (companions_iff cs on_metrics base_metrics).0 parts.1),
    λ all.
        (append-eq-nil _ _).1
          (Bounded-companion c _ _ all.0, (companions_iff cs on_metrics base_metrics).1 all.1),
  )

  block_iff :
      (entry : PerformanceEntry A) (ri baseline measured : A) (on_metrics base_metrics : Dict A)
      → (block_reasons entry ri baseline measured on_metrics base_metrics ≡ []) ↔ (
          (n.lt entry.min_relative_improvement ri ≡ true)
          × All
              (λ c. Bounded c (get c.metric on_metrics) (get c.metric base_metrics))
              entry.no_regression)
  unfolding block_reasons
  block_iff entry ri baseline measured on_metrics base_metrics =
      ground (arith, companions_iff entry.no_regression on_metrics base_metrics)

  judge_iff :
      (entry : PerformanceEntry A) (out : PerformanceResult A (Message A)) (baseline measured : A)
      (on_metrics base_metrics : Dict A)
      → out.block_passed ≡ false
      → ((compare_baseline entry out (some baseline) measured on_metrics base_metrics).block_passed
          ≡ true)
        ↔ ((n.eq baseline zero_num ≡ false)
            × (n.lt entry.min_relative_improvement
                  (relative_improvement baseline measured entry.direction)
                ≡ true)
            × All
                (λ c. Bounded c (get c.metric on_metrics) (get c.metric base_metrics))
                entry.no_regression)
  unfolding compare_baseline judge
  judge_iff entry out baseline measured on_metrics base_metrics unset =
      let ri = relative_improvement baseline measured entry.direction in
      ground (
        arith,
        unset,
        is_empty_iff (block_reasons entry ri baseline measured on_metrics base_metrics),
        block_iff entry ri baseline measured on_metrics base_metrics,
      )

  compare_baseline-Improves :
      (entry : PerformanceEntry A) (out : PerformanceResult A (Message A)) (found : Option A)
      (measured : A) (on_metrics base_metrics : Dict A)
      → out.block_passed ≡ false
      → ((compare_baseline entry out found measured on_metrics base_metrics).block_passed ≡ true)
        ↔ Improves entry found (some measured) on_metrics base_metrics
  unfolding compare_baseline
  compare_baseline-Improves entry out none measured on_metrics base_metrics unset = (
    λ h. absurd (ground (arith, h, unset)),
    λ i. let e : none ≡ some i.baseline = i.base_measured in cc,
  )
  compare_baseline-Improves entry out (some baseline) measured on_metrics base_metrics unset =
      let judged = judge_iff entry out baseline measured on_metrics base_metrics unset in
      (
        λ h. record {
          baseline = baseline;
          measured = measured;
          base_measured = refl;
          on_measured = refl;
          nonzero = (judged.0 h).0;
          beats = (judged.0 h).1;
          companions = (judged.0 h).2;
        },
        λ i.
            let same : i.baseline ≡ baseline = cc in
            let also : i.measured ≡ measured = cc in
            judged.1 (rw same at i.nonzero, rw (same, also) at i.beats, i.companions),
      )

moved :
    {A : Type 0} ⦃n : Arith A⦄ (laws : SignLaws A n) (baseline measured : A) (direction : String)
    → n.lt zero_num (relative_improvement baseline measured direction) ≡ true
    → (if direction == "decrease" then n.lt measured baseline else n.lt baseline measured) ≡ true
unfolding relative_improvement
moved ⦃n⦄ laws baseline measured direction h = elim (Bool-cases (direction == "decrease")) [
  | inl e ↦
      ground
        (arith, e, laws.sub_pos baseline measured (laws.div_pos _ baseline (ground (arith, e, h))))
  | inr e ↦
      ground
        (arith, e, laws.sub_pos measured baseline (laws.div_pos _ baseline (ground (arith, e, h))))
]

module _ {S A H : Type 0} ⦃n : Arith A⦄ (executor : Executor S A H) where
  -- One side's run of an entry's workload.
  abbrev pub side :
      PerformanceEntry A → (traces : List String) (feature_on : Bool) → S → TraceOutcome A × S
  side entry traces on s =
      measure executor traces entry.workload.run on (timeout_of entry.workload.timeout) s

  -- The metrics that an entry is compared with, from the world that the feature-on run left.
  abbrev pub baseline_metrics :
      PerformanceEntry A → (traces : List String) → Json A → BaselineSource → S → Dict A
  baseline_metrics entry traces document (recorded pointer) s =
      recorded_metrics (resolve document pointer)
  baseline_metrics entry traces document measure_feature_off s =
      (side entry traces false s).0.metrics

module _ {S A H : Type 0} ⦃n : Arith A⦄ (executor : Executor S A H) (lib : Library) where
  baseline_side_lem :
      (entry : PerformanceEntry A) (traces : List String) (document : Json A)
      (source : BaselineSource) (out : PerformanceResult A (Message A)) (s : S)
      → ((baseline_side executor lib entry traces document source out s).0.0
          ≡ baseline_metrics executor entry traces document source s)
        × ((baseline_side executor lib entry traces document source out s).0.1.block_passed
            ≡ out.block_passed)
  unfolding baseline_side
  baseline_side_lem entry traces document (recorded pointer) out s = (refl, refl)
  baseline_side_lem entry traces document measure_feature_off out s = (refl, refl)

  run_baseline-Improves :
      (entry : PerformanceEntry A) (traces : List String) (document : Json A)
      (out : PerformanceResult A (Message A)) (on : TraceOutcome A) (found : Option A) (s : S)
      → out.block_passed ≡ false
      → ((run_baseline executor lib entry traces document out on found s).0.block_passed ≡ true) ↔ (
          let base_metrics = baseline_metrics executor entry traces document entry.baseline s in
          Improves entry (get entry.metric base_metrics) found on.metrics base_metrics)
  unfolding run_baseline
  run_baseline-Improves entry traces document out on none s unset = (
    λ h. absurd (ground (arith, h, unset)),
    λ i. let e : none ≡ some i.measured = i.on_measured in cc,
  )
  run_baseline-Improves entry traces document out on (some measured) s unset =
      let out' = record out { measured = some measured } in
      let (metrics, unset') = baseline_side_lem entry traces document entry.baseline out' s in
      rw (sym metrics) (
        compare_baseline-Improves entry
          (baseline_side executor lib entry traces document entry.baseline out' s).0.1
          (get entry.metric _) measured on.metrics _ (unset' ∙ unset))

  run_sides-Improves :
      (entry : PerformanceEntry A) (traces : List String) (document : Json A) (s : S)
      → ((run_sides executor lib entry traces document s).0.block_passed ≡ true) ↔ (
          let (on, s') = side executor entry traces true s in
          let base_metrics = baseline_metrics executor entry traces document entry.baseline s' in
          Improves entry
            (get entry.metric base_metrics)
            (get entry.metric on.metrics)
            on.metrics
            base_metrics)
  unfolding run_sides
  run_sides-Improves entry traces document s =
      let (on, s') = side executor entry traces true s in
      run_baseline-Improves entry traces document _ on (get entry.metric on.metrics) s' refl

  -- The block threshold passes exactly when the workload is not empty, the feature-on run measured
  -- the metric, the baseline side has a value for it that is not zero, the relative improvement is
  -- strictly above the floor, and both sides measured every companion within its band.
  pub run_performance-Improves :
      (entry : PerformanceEntry A) (document : Json A) (s : S)
      → ((run_performance executor lib entry document s).0.block_passed ≡ true) ↔ (
          let traces = traces_of lib entry.workload in
          let (on, s') = side executor entry traces true s in
          let base_metrics = baseline_metrics executor entry traces document entry.baseline s' in
          (is_empty traces ≡ false)
          × Improves entry
              (get entry.metric base_metrics)
              (get entry.metric on.metrics)
              on.metrics
              base_metrics)
  unfolding run_performance
  run_performance-Improves entry document s =
      let traces = traces_of lib entry.workload in
      let whole = run_sides-Improves entry traces document s in
      (
        λ h. elim (Bool-cases (is_empty traces)) [
          | inl e ↦ absurd (ground (arith, e, h))
          | inr e ↦ (e, whole.0 (ground (arith, e, h)))
        ],
        λ (e, i). ground (arith, e, whole.1 i),
      )

  -- For a floor that is not negative: an entry that passes has a metric that moved strictly in the
  -- declared direction, between the two values that the sides measured.
  pub run_performance-moved :
      (laws : SignLaws A n) (entry : PerformanceEntry A) (document : Json A) (s : S)
      → n.lt entry.min_relative_improvement zero_num ≡ false
      → (run_performance executor lib entry document s).0.block_passed ≡ true
      → (let traces = traces_of lib entry.workload in
          let (on, s') = side executor entry traces true s in
          let base_metrics = baseline_metrics executor entry traces document entry.baseline s' in
          (measured : A) × (baseline : A) × (get entry.metric on.metrics ≡ some measured)
          × (get entry.metric base_metrics ≡ some baseline)
          × ((if entry.direction == "decrease"
                then n.lt measured baseline
                else n.lt baseline measured)
              ≡ true))
  run_performance-moved laws entry document s floor h =
      let i = ((run_performance-Improves entry document s).0 h).1 in
      (
        i.measured,
        i.baseline,
        i.on_measured,
        i.base_measured,
        moved laws i.baseline i.measured entry.direction
            (laws.above_floor entry.min_relative_improvement _ floor i.beats),
      )

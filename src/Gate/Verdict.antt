-- ===== src/Gate/Verdict.antt =====
-- When the gate passes (loop/gate.py, `check_gate`): the conditions G1 to G5, stated of the
-- results with no mention of reasons, and what the reasons may carry.
use paper_to_pipeline.Base.{
  ◌≡◌, refl, ◌↔◌, ◌⊎◌, inl, inr, true, false, List, [], ◌∷◌, map, arith, is_empty, keep, string_eq,
  All, In, Bool-cases, &&_iff, ◌&&◌, ◌∙◌, ==_iff, append-eq-nil, append_five-nil, is_empty_iff, sym,
}
use paper_to_pipeline.Results.{CorrectnessResult, PerformanceResult, TestPlanResults}
use paper_to_pipeline.Gate.{
  is_baseline, baseline_reasons, correctness_reasons, performance_reason, performance_reasons,
  performance_warnings, gate_reasons, check_gate, missing_baseline_reasons, smoke_reasons,
}

module _ {A M : Type 0} where
  -- The conditions of the gate's module text, each about what was measured.
  pub record Passes (results : TestPlanResults A M) : Type 0 where
    pub built : results.build_ok ≡ true
    pub regression :
        (r : CorrectnessResult A M) × In r results.correctness × (r.kind ≡ "feature_off_baseline")
    pub correct : All (λ r. r.passed ≡ true) results.correctness
    pub smoke : results.smoke_ok ≡ true
    pub performance :
        All (λ r. (r.failed_traces ≡ []) × (r.block_passed ≡ true)) results.performance

  baseline_reasons-nil :
      (rs : List (CorrectnessResult A M))
      → (baseline_reasons rs ≡ []) ↔ All (λ r. r.passed ≡ true) rs
  unfolding baseline_reasons
  baseline_reasons-nil [] = ground arith
  baseline_reasons-nil (r ∷ rs) = ground (arith, baseline_reasons-nil rs)

  -- G2 and G3 together ask that every entry passed.
  correctness_nil :
      (rs : List (CorrectnessResult A M))
      → ((baseline_reasons (keep is_baseline rs) ≡ []) × (correctness_reasons rs ≡ []))
        ↔ All (λ r. r.passed ≡ true) rs
  unfolding baseline_reasons correctness_reasons
  correctness_nil [] = ground arith
  correctness_nil (r ∷ rs) = ground (arith, correctness_nil rs)

  performance_reasons-nil :
      (rs : List (PerformanceResult A M))
      → (performance_reasons rs ≡ [])
        ↔ All (λ r. (r.failed_traces ≡ []) × (r.block_passed ≡ true)) rs
  unfolding performance_reasons performance_reason
  performance_reasons-nil [] = ground arith
  performance_reasons-nil (r ∷ rs) = ground (
    arith,
    performance_reasons-nil rs,
    append-eq-nil (performance_reason r) (performance_reasons rs),
  )

  keep_some :
      (rs : List (CorrectnessResult A M))
      → (is_empty (keep is_baseline rs) ≡ false)
        ↔ ((r : CorrectnessResult A M) × In r rs × (r.kind ≡ "feature_off_baseline"))
  keep_some [] = (λ h. cc, λ (r, m, k). absurd m)
  keep_some (r ∷ rs) = elim (Bool-cases (is_baseline r)) [
    | inl e ↦ (λ h. (r, inl refl, (==_iff r.kind _).0 e), λ h. rw e)
    | inr e ↦ (
      λ h. let (q, m, k) = (keep_some rs).0 (rw e at h) in (q, inr m, k),
      λ (q, m, k). rw e ((keep_some rs).1 (q, other q m k e, k)),
    )
  ]
    where
      other :
          (q : CorrectnessResult A M)
          → (q ≡ r) ⊎ In q rs
          → q.kind ≡ "feature_off_baseline"
          → is_baseline r ≡ false
          → In q rs
      other q (inr m) k e = m
      other q (inl p) k e = ground (arith, ==_iff r.kind "feature_off_baseline")

  missing_baseline-nil :
      (rs : List (CorrectnessResult A M))
      → (missing_baseline_reasons (keep is_baseline rs) ≡ [])
        ↔ ((r : CorrectnessResult A M) × In r rs × (r.kind ≡ "feature_off_baseline"))
  unfolding missing_baseline_reasons
  missing_baseline-nil rs = elim (Bool-cases (is_empty (keep is_baseline rs))) [
    | inl e ↦ (λ h. cc (rw e at h), λ w. cc ((keep_some rs).1 w))
    | inr e ↦ (λ _. (keep_some rs).0 e, λ _. rw e)
  ]

  smoke_reasons-nil :
      (results : TestPlanResults A M) → (smoke_reasons results ≡ []) ↔ (results.smoke_ok ≡ true)
  unfolding smoke_reasons
  smoke_reasons-nil results = ground arith

  gate_reasons-nil :
      (results : TestPlanResults A M)
      → results.build_ok ≡ true
      → (gate_reasons results ≡ []) ↔ Passes results
  unfolding gate_reasons
  gate_reasons-nil results built = (
    λ h.
        let parts = (append_five-nil _ _ _ _ _).0 h in
        record {
          built = built;
          regression = (missing_baseline-nil results.correctness).0 parts.0;
          correct = (correctness_nil results.correctness).0 (parts.1, parts.2);
          smoke = (smoke_reasons-nil results).0 parts.3;
          performance = (performance_reasons-nil results.performance).0 parts.4;
        },
    λ p.
        let both = (correctness_nil results.correctness).1 p.correct in
        (append_five-nil _ _ _ _ _).1 (
          (missing_baseline-nil results.correctness).1 p.regression,
          both.0,
          both.1,
          (smoke_reasons-nil results).1 p.smoke,
          (performance_reasons-nil results.performance).1 p.performance,
        ),
  )

  passed_lem :
      (results : TestPlanResults A M)
      → (check_gate results).passed ≡ (results.build_ok && is_empty (gate_reasons results))
  unfolding check_gate
  passed_lem results = ground arith

  -- The gate passes exactly when the build succeeded, the plan declares a feature-off baseline
  -- entry, every correctness entry passed, the smoke run was clean, and every performance entry
  -- completed all its traces and passed its blocking threshold.
  pub check_gate-Passes :
      (results : TestPlanResults A M) → ((check_gate results).passed ≡ true) ↔ Passes results
  check_gate-Passes results = (
    λ h.
        let both = (&&_iff _ _).0 (sym (passed_lem results) ∙ h) in
        (gate_reasons-nil results both.0).0 ((is_empty_iff _).0 both.1),
    λ p.
        passed_lem results
        ∙ (&&_iff _ _).1 (p.built, (is_empty_iff _).1 ((gate_reasons-nil results p.built).1 p)),
  )

  -- `results` with the warnings of its performance entries taken away.
  abbrev pub silent : PerformanceResult A M → PerformanceResult A M
  silent r = record r { warning = []; warn_passed = true }

  abbrev pub silenced : TestPlanResults A M → TestPlanResults A M
  silenced results = record results { performance = map silent results.performance }

  performance_reasons-silent :
      (rs : List (PerformanceResult A M))
      → performance_reasons (map silent rs) ≡ performance_reasons rs
  unfolding performance_reasons performance_reason
  performance_reasons-silent [] = refl
  performance_reasons-silent (r ∷ rs) = rw (performance_reasons-silent rs)

  performance_warnings-silent :
      (rs : List (PerformanceResult A M)) → performance_warnings (map silent rs) ≡ []
  unfolding performance_warnings
  performance_warnings-silent [] = refl
  performance_warnings-silent (r ∷ rs) = performance_warnings-silent rs

  -- A shortfall against a claimed improvement is a warning and never a reason: with every warning
  -- taken away the verdict and the reasons are the same, and no warning is left.
  pub check_gate-silenced :
      (results : TestPlanResults A M)
      → ((check_gate (silenced results)).passed ≡ (check_gate results).passed)
        × ((check_gate (silenced results)).reasons ≡ (check_gate results).reasons)
        × ((check_gate (silenced results)).warnings ≡ [])
  unfolding check_gate gate_reasons smoke_reasons
  check_gate-silenced results = ground (
    arith,
    performance_reasons-silent results.performance,
    performance_warnings-silent results.performance,
  )

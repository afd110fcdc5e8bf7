-- ===== src/Constraints/Static/Meets.antt =====
-- When a candidate passes before it is built, and when its measurements do (loop/constraints.py,
-- `check_static`, `check_measured`).
use paper_to_pipeline.Base.{
  ◌≡◌, refl, ◌↔◌, inl, inr, String, Bool, true, false, List, [], ◌∷◌, ◌++◌, All, is_empty_iff,
  arith, string_eq, Bool-cases,
}
use paper_to_pipeline.Base.Dict.{Dict}
use paper_to_pipeline.Base.Json.{Json}
use paper_to_pipeline.Base.Numbers.{Arith}
use paper_to_pipeline.Runner.Plan.{compare_by}
use paper_to_pipeline.Constraints.Ranges.{Python}
use paper_to_pipeline.Constraints.Header.{Reader, HeaderError, knob_values}
use paper_to_pipeline.Constraints.Formulas.{Expr, Result, fails, gives, Operators}
use paper_to_pipeline.Constraints.Storage.{Spec, PortPlan, all_knobs, storage_bits}
use paper_to_pipeline.Constraints.Static.{
  Constraint, is_static, CandidateReport, note_static, check_one, check_constraints, settle,
  check_static, check_candidate, legal_report,
}

snoc-ne-nil : {B : Type 0} (xs : List B) (x : B) → ¬ (xs ++ x ∷ [] ≡ [])
snoc-ne-nil [] x h = cc
snoc-ne-nil (y ∷ xs) x h = cc

module _ {A : Type 0} ⦃n : Arith A⦄ where
  abbrev IsClean : CandidateReport A → Type 0
  IsClean report = (report.errors ≡ []) × (report.violations ≡ [])

  -- The metric could be computed, and the constraint holds of it.
  abbrev pub Meets : Result (A × Dict A) → Constraint A → Type 0
  Meets bits c =
      (value : A) × (breakdown : Dict A) × (bits ≡ gives (value, breakdown))
      × (compare_by c.comparison value c.allowance ≡ true)

  note_iff :
      (c : Constraint A) (bits : Result (A × Dict A)) (report : CandidateReport A)
      → IsClean (note_static c bits report) ↔ (IsClean report × Meets bits c)
  unfolding note_static
  note_iff c (fails e) report =
      (λ h. absurd (snoc-ne-nil report.errors _ h.0), λ (clean, (value, breakdown, same, met)). cc)
  note_iff c (gives (value, breakdown)) report = (
    λ h. elim (Bool-cases (compare_by c.comparison value c.allowance)) [
      | inl e ↦ ((h.0, rw e at h.1), (value, breakdown, refl, e))
      | inr e ↦ absurd (snoc-ne-nil report.violations _ (rw e at h.1))
    ],
    λ (clean, met). (clean.0, kept met clean.1),
  )
    where
      kept :
          Meets (gives (value, breakdown)) c
          → report.violations ≡ []
          → (note_static c (gives (value, breakdown)) report).violations ≡ []
      kept (w, b, same, met) clean = let e : value ≡ w = cc in ground (arith, clean, e, met)

  one_iff :
      (static_phase : Bool) (c : Constraint A) (bits : Result (A × Dict A))
      (report : CandidateReport A)
      → IsClean (check_one static_phase c bits report)
        ↔ (IsClean report × (static_phase ≡ true → Meets bits c))
  unfolding check_one
  one_iff false c bits report = (λ h. (h, λ no. cc), λ h. h.0)
  one_iff true c bits report =
      let one = note_iff c bits report in
      (λ h. ((one.0 h).0, λ _. (one.0 h).1), λ (clean, met). one.1 (clean, met refl))

  constraints_iff :
      (cs : List (Constraint A)) (bits : Result (A × Dict A)) (report : CandidateReport A)
      → IsClean (check_constraints cs bits report)
        ↔ (IsClean report × All (λ c. is_static c ≡ true → Meets bits c) cs)
  unfolding check_constraints
  constraints_iff [] bits report = (λ h. (h, tt), λ h. h.0)
  constraints_iff (c ∷ cs) bits report =
      let one = one_iff (is_static c) c bits report in
      let rest = constraints_iff cs bits (check_one (is_static c) c bits report) in
      (
        λ h. let (clean, all) = rest.0 h in ((one.0 clean).0, ((one.0 clean).1, all)),
        λ (clean, (met, all)). rest.1 (one.1 (clean, met), all),
      )

  settle_iff : (report : CandidateReport A) → ((settle report).passed ≡ true) ↔ IsClean report
  settle_iff report = ground (arith, is_empty_iff report.errors, is_empty_iff report.violations)

  candidate_iff :
      (errors : List (HeaderError A)) (features hosts : Dict (Json A)) (cs : List (Constraint A))
      (bits : Result (A × Dict A))
      → ((check_candidate errors features hosts cs bits).passed ≡ true)
        ↔ ((errors ≡ []) × All (λ c. is_static c ≡ true → Meets bits c) cs)
  unfolding check_candidate
  candidate_iff [] features hosts cs bits =
      let start = legal_report [] features hosts in
      let whole = settle_iff (check_constraints cs bits start) in
      let each = constraints_iff cs bits start in
      (λ h. (refl, (each.0 (whole.0 h)).1), λ (_, all). whole.1 (each.1 ((refl, refl), all)))
  candidate_iff (e ∷ errors) features hosts cs bits = (λ h. cc, λ (none_left, all). cc)

module _ {A : Type 0} ⦃n : Arith A⦄ (python : Python A) (reader : Reader A)
    (operators : Operators A) (parse : String → Result (Expr A)) (upper : String → String) where
  -- A candidate passes before it is built exactly when its header has no error and every static
  -- constraint holds of the storage that is computed from the header's values.
  pub check_static-Meets :
      (header : String) (spec : Spec A) (plan : PortPlan A) (constraints : List (Constraint A))
      → ((check_static python reader operators parse upper header spec plan constraints).passed
          ≡ true)
        ↔ (let ((features, hosts), errors) =
              knob_values python reader header (all_knobs upper spec plan) in
            (errors ≡ [])
            × All
                (λ c.
                  is_static c ≡ true
                  → Meets (storage_bits operators parse spec plan features hosts) c)
                constraints)
  unfolding check_static
  check_static-Meets header spec plan constraints =
      let ((features, hosts), errors) =
        knob_values python reader header (all_knobs upper spec plan) in
      candidate_iff errors features hosts constraints
        (storage_bits operators parse spec plan features hosts)

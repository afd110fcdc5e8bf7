-- ===== src/Search/Compare/Runs.antt =====
-- Which variants ran every trace, and what their runs give where they report the metrics (loop/dse.py,
-- `compare_variants`, `_versus`).
use paper_to_pipeline.Base.{
  ◌≡◌, refl, sym, ◌∙◌, ◌≢◌, ◌↔◌, String, true, Option, none, some, List, [], ◌∷◌, All, In,
  All_lookup, keep, not, is_empty_iff, Bool-cases, inl, inr, string_eq, ◌==◌, ap,
}
use paper_to_pipeline.Base.Dict.{Dict, get}
use paper_to_pipeline.Base.Numbers.{Arith}
use paper_to_pipeline.Search.Scores.{
  TraceRuns, Score, is_given, run_of, score_of, is_complete, score_runs, score_all,
}

pub get_All :
    {V : Type 0} (P : V → Type 0) (k : String) (d : Dict V) (v : V)
    → get k d ≡ some v
    → All (λ e. P e.1) d
    → P v
get_All P k [] v h all = cc
get_All P k ((j, w) ∷ d) v h all = elim (Bool-cases (j == k)) [
  | inl e ↦ let found : some w ≡ some v = rw e at h in let same : w ≡ v = cc in rw (sym same) all.0
  | inr e ↦ get_All P k d v (rw e at h) all.1
]

module _ {A : Type 0} where
  -- A run is there, and reported some metrics.
  abbrev pub HasRun : TraceRuns A → String → Type 0
  HasRun runs t = (row : Dict A) × (get t runs ≡ some (some row)) × (row ≢ [])

  -- The variant has a run of every trace.
  abbrev pub RanAll : Dict (TraceRuns A) → List String → String → Type 0
  RanAll per_trace traces label =
      (runs : TraceRuns A) × (get label per_trace ≡ some runs) × All (HasRun runs) traces

  -- A run that did not fail reports these metrics.
  abbrev pub HasMetrics : List String → Option (Dict A) → Type 0
  HasMetrics metrics none = Unit
  HasMetrics metrics (some []) = Unit
  HasMetrics metrics (some (m ∷ ms)) = All (λ k. (x : A) × (get k (m ∷ ms) ≡ some x)) metrics

  abbrev pub AllReport : List String → Dict (TraceRuns A) → Type 0
  AllReport metrics per_trace =
      All (λ variant. All (λ run. HasMetrics metrics run.1) variant.1) per_trace

  abbrev as_run : Option (Option (Dict A)) → Option (Dict A)
  as_run none = none
  as_run (some none) = none
  as_run (some (some [])) = none
  as_run (some (some (m ∷ ms))) = some (m ∷ ms)

  as_run_iff :
      (found : Option (Option (Dict A))) (row : Dict A)
      → (as_run found ≡ some row) ↔ ((found ≡ some (some row)) × (row ≢ []))
  as_run_iff none row = (λ h. cc, λ (h, some_row). cc)
  as_run_iff (some none) row = (λ h. cc, λ (h, some_row). cc)
  as_run_iff (some (some [])) row =
      (λ h. cc, λ (h, some_row). (let same : row ≡ [] = cc in absurd (some_row same)))
  as_run_iff (some (some (m ∷ ms))) row = (λ h. (cc, λ none_there. cc), λ (h, some_row). cc)

  run_of_lem : (runs : TraceRuns A) (t : String) → run_of runs t ≡ as_run (get t runs)
  unfolding run_of
  run_of_lem runs t = same (get t runs)
    where
      same :
          (found : Option (Option (Dict A)))
          → (elim found [
            | none ↦ none
            | some none ↦ none
            | some (some []) ↦ none
            | some (some (m ∷ ms)) ↦ some (m ∷ ms)
          ])
            ≡ as_run found
      same none = refl
      same (some none) = refl
      same (some (some [])) = refl
      same (some (some (m ∷ ms))) = refl

  pub run_iff :
      (runs : TraceRuns A) (t : String) (row : Dict A)
      → (run_of runs t ≡ some row) ↔ ((get t runs ≡ some (some row)) × (row ≢ []))
  run_iff runs t row =
      let found = as_run_iff (get t runs) row in
      (λ h. found.0 (sym (run_of_lem runs t) ∙ h), λ h. run_of_lem runs t ∙ found.1 h)

  is_given_iff : (o : Option (Dict A)) → (is_given o ≡ true) ↔ ((row : Dict A) × (o ≡ some row))
  is_given_iff none = (λ h. cc, λ (row, h). cc)
  is_given_iff (some row) = (λ _. (row, refl), λ _. refl)

  given_iff : (runs : TraceRuns A) (t : String) → (is_given (run_of runs t) ≡ true) ↔ HasRun runs t
  given_iff runs t = (
    λ h.
        let (row, e) = (is_given_iff (run_of runs t)).0 h in
        let (there, some_row) = (run_iff runs t row).0 e in (row, there, some_row),
    λ (row, there, some_row).
        (is_given_iff (run_of runs t)).1 (row, (run_iff runs t row).1 (there, some_row)),
  )

  row_metric :
      (metrics : List String) (row : Dict A) (k : String)
      → HasMetrics metrics (some row)
      → row ≢ []
      → In k metrics
      → (x : A) × (get k row ≡ some x)
  row_metric metrics [] k h some_row m = absurd (some_row refl)
  row_metric metrics (r ∷ rs) k h some_row m = All_lookup _ metrics k h m

  pub run_metric :
      (metrics : List String) (runs : TraceRuns A) (t : String) (row : Dict A) (k : String)
      → All (λ run. HasMetrics metrics run.1) runs
      → run_of runs t ≡ some row
      → In k metrics
      → (x : A) × (get k row ≡ some x)
  run_metric metrics runs t row k all h m =
      let (there, some_row) = (run_iff runs t row).0 h in
      row_metric metrics row k (get_All (HasMetrics metrics) t runs _ there all) some_row m

  all_given_iff :
      (runs : TraceRuns A) (ts : List String)
      → (keep (λ t. not (is_given (run_of runs t))) ts ≡ []) ↔ All (HasRun runs) ts
  all_given_iff runs [] = (λ _. tt, λ _. refl)
  all_given_iff runs (t ∷ ts) =
      let first = given_iff runs t in
      let later = all_given_iff runs ts in
      elim (Bool-cases (is_given (run_of runs t))) [
        | inl e ↦ (λ h. (first.0 e, later.0 (rw e at h)), λ h. rw e (later.1 h.1))
        | inr e ↦ (λ h. (let wrong = rw e at h in cc), λ h. (let clash = sym e ∙ first.1 h.0 in cc))
      ]

module _ {A : Type 0} ⦃n : Arith A⦄ where
  -- What is looked up for a label.
  abbrev pub found_score : List String → String → Option (TraceRuns A) → Score A
  found_score traces label none = record { n = 0; failed = label ∷ []; means = [] }
  found_score traces label (some runs) = score_runs traces runs

  abbrev scored : List String → Option (TraceRuns A) → Option (Score A)
  scored traces none = none
  scored traces (some runs) = some (score_runs traces runs)

  get-score_all :
      (traces : List String) (label : String) (per_trace : Dict (TraceRuns A))
      → get label (score_all traces per_trace) ≡ scored traces (get label per_trace)
  unfolding score_all
  get-score_all traces label [] = refl
  get-score_all traces label ((j, runs) ∷ per_trace) = elim (Bool-cases (j == label)) [
    | inl e ↦ rw e refl
    | inr e ↦ rw e (get-score_all traces label per_trace)
  ]

  abbrev as_score : String → Option (Score A) → Score A
  as_score label found = elim found [
    | none ↦ record { n = 0; failed = label ∷ []; means = [] }
    | some s ↦ s
  ]

  pub score_of-score_all :
      (traces : List String) (label : String) (per_trace : Dict (TraceRuns A))
      → score_of (score_all traces per_trace) label ≡ found_score traces label (get label per_trace)
  score_of-score_all traces label per_trace =
      ap (as_score label) (get-score_all traces label per_trace) ∙ same (get label per_trace)
    where
      same :
          (found : Option (TraceRuns A))
          → as_score label (scored traces found) ≡ found_score traces label found
      same none = refl
      same (some runs) = refl

  failed_iff :
      (traces : List String) (label : String) (per_trace : Dict (TraceRuns A))
      (found : Option (TraceRuns A))
      → get label per_trace ≡ found
      → ((found_score traces label found).failed ≡ []) ↔ RanAll per_trace traces label
  unfolding score_runs
  failed_iff traces label per_trace none e = (λ h. cc, λ (runs, h, all). cc)
  failed_iff traces label per_trace (some runs) e = (
    λ h. (runs, e, (all_given_iff runs traces).0 h),
    λ (others, h, all).
        let same : others ≡ runs = cc in (all_given_iff runs traces).1 (rw same at all),
  )

  -- A variant counts as complete exactly when it ran every trace.
  pub is_complete_iff :
      (traces : List String) (label : String) (per_trace : Dict (TraceRuns A))
      → (is_complete (score_all traces per_trace) label ≡ true) ↔ RanAll per_trace traces label
  is_complete_iff traces label per_trace =
      let failed = failed_iff traces label per_trace (get label per_trace) refl in
      let score = ap (λ s. s.failed) (score_of-score_all traces label per_trace) in
      let empty = is_empty_iff (score_of (score_all traces per_trace) label).failed in
      (λ h. failed.0 (sym score ∙ empty.0 h), λ h. empty.1 (score ∙ failed.1 h))

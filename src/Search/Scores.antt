-- ===== src/Search/Scores.antt =====
-- The scores of promoted variants (loop/dse.py, `_mean`, `_versus`, and the loops of
-- `compare_variants`). A result is `none` where the source raises: a `KeyError` of a run that lacks the
-- metric, or a `TypeError` of a comparison with `None`.
use paper_to_pipeline.Base.{
  ℕ, String, Bool, true, false, Option, none, some, List, [], ◌∷◌, keep, length, not, is_empty,
  ◌&&◌, string_eq, if◌then◌else◌,
}
use paper_to_pipeline.Base.Dict.{Dict, get, put}
use paper_to_pipeline.Base.Numbers.{Arith, zero_num}

-- One trace's metrics by a variant's label: `none` for a run that failed.
abbrev pub TraceRuns : Type 0 → Type 0
TraceRuns A = Dict (Option (Dict A))

pub record Score (A : Type 0) : Type 0 where
  pub n : ℕ
  pub failed : List String
  pub means : Dict A

-- One comparison of two variants on one metric.
pub record Versus (A : Type 0) : Type 0 where
  pub change : Option A
  pub traces_lower : ℕ
  pub traces_higher : ℕ
  pub traces_same : ℕ

abbrev pub lower_is_better : List String
lower_is_better = "brmispki_50perc_amean" ∷ "cycwppki_50perc_amean" ∷ []

abbrev pub promote_metrics : List String
promote_metrics = "brmispki_50perc_amean" ∷ "cycwppki_50perc_amean" ∷ "ipc_50perc_amean" ∷ []

abbrev pub is_given : {X : Type 0} → Option X → Bool
is_given none = false
is_given (some _) = true

module _ {A : Type 0} where
  -- `if runs.get(t)`: the metrics of a run that did not fail and reported some.
  unfoldable pub run_of : TraceRuns A → String → Option (Dict A)
  run_of runs t = elim (get t runs) [
    | none ↦ none
    | some none ↦ none
    | some (some []) ↦ none
    | some (some (m ∷ ms)) ↦ some (m ∷ ms)
  ]

  unfoldable pub ok_runs : TraceRuns A → List String → List (Dict A)
  ok_runs runs [] = []
  ok_runs runs (t ∷ ts) = elim (run_of runs t) [
    | none ↦ ok_runs runs ts
    | some metrics ↦ metrics ∷ ok_runs runs ts
  ]

  -- `[r[m] for r in rows if m in r]`
  unfoldable pub column : (metric : String) → List (Dict A) → List A
  column metric [] = []
  column metric (row ∷ rows) = elim (get metric row) [
    | none ↦ column metric rows
    | some x ↦ x ∷ column metric rows
  ]

  -- `scores[label]`; a label without runs has failed every trace.
  abbrev pub score_of : Dict (Score A) → String → Score A
  score_of scores label = elim (get label scores) [
    | none ↦ record { n = 0; failed = label ∷ []; means = [] }
    | some s ↦ s
  ]

  -- `label in complete`
  abbrev pub is_complete : Dict (Score A) → String → Bool
  is_complete scores label = is_empty (score_of scores label).failed

  abbrev pub add_pair : Option A → Option A → Option (List (A × A)) → Option (List (A × A))
  add_pair (some x) (some y) (some pairs) = some ((x, y) ∷ pairs)
  add_pair _ _ _ = none

  -- `both`, with the two values of the metric; `none` where one of these runs does not report it, which
  -- is a `KeyError`.
  unfoldable pub paired :
      (metric : String) → TraceRuns A → TraceRuns A → List String → Option (List (A × A))
  paired metric a b [] = some []
  paired metric a b (t ∷ ts) =
      let rest = paired metric a b ts in
      elim (run_of a t) [
        | none ↦ rest
        | some x ↦ elim (run_of b t) [
          | none ↦ rest
          | some y ↦ add_pair (get metric x) (get metric y) rest
        ]
      ]

module _ {A : Type 0} ⦃n : Arith A⦄ where
  unfoldable pub sum_from : A → List A → A
  sum_from total [] = total
  sum_from total (x ∷ xs) = sum_from (n.add total x) xs

  unfoldable pub mean : List A → Option A
  unfolding sum_from
  mean [] = none
  mean (x ∷ xs) = some (n.div (sum_from zero_num (x ∷ xs)) (n.from_count (length (x ∷ xs))))

  unfoldable pub means_of : List String → List (Dict A) → Dict A
  unfolding mean column
  means_of [] rows = []
  means_of (m ∷ ms) rows = elim (mean (column m rows)) [
    | none ↦ means_of ms rows
    | some x ↦ (m, x) ∷ means_of ms rows
  ]

  -- The body of the first loop.
  unfoldable pub score_runs : List String → TraceRuns A → Score A
  unfolding means_of ok_runs
  score_runs traces runs =
      let rows = ok_runs runs traces in
      record {
        n = length rows;
        failed = keep (λ t. not (is_given (run_of runs t))) traces;
        means = means_of promote_metrics rows;
      }

  unfoldable pub score_all : List String → Dict (TraceRuns A) → Dict (Score A)
  unfolding score_runs
  score_all traces [] = []
  score_all traces ((label, runs) ∷ per_trace) =
      (label, score_runs traces runs) ∷ score_all traces per_trace

  unfoldable pub change_of : Option A → Option A → Option A
  change_of (some a) (some b) =
      if n.eq b zero_num then none else some (n.sub (n.div a b) (n.from_count 1))
  change_of _ _ = none

  abbrev pub firsts : List (A × A) → List A
  firsts [] = []
  firsts (p ∷ ps) = p.0 ∷ firsts ps

  abbrev pub seconds : List (A × A) → List A
  seconds [] = []
  seconds (p ∷ ps) = p.1 ∷ seconds ps

  -- What `_versus` returns, from the two columns.
  unfoldable pub versus_of : (both : List (A × A)) → Versus A
  unfolding mean change_of
  versus_of both = record {
    change = change_of (mean (firsts both)) (mean (seconds both));
    traces_lower = length (keep (λ (x : A × A). n.lt x.0 x.1) both);
    traces_higher = length (keep (λ (x : A × A). n.lt x.1 x.0) both);
    traces_same = length (keep (λ (x : A × A). n.eq x.0 x.1) both);
  }

  unfoldable pub versus :
      TraceRuns A → TraceRuns A → List String → (metric : String) → Option (Versus A)
  unfolding paired versus_of
  versus a b traces metric = elim (paired metric a b traces) [
    | none ↦ none
    | some both ↦ some (versus_of both)
  ]

  abbrev pub add_versus :
      String → Option (Versus A) → Option (Dict (Versus A)) → Option (Dict (Versus A))
  add_versus m (some v) (some rest) = some ((m, v) ∷ rest)
  add_versus m _ _ = none

  unfoldable pub versus_all :
      TraceRuns A → TraceRuns A → List String → List String → Option (Dict (Versus A))
  unfolding versus
  versus_all a b traces [] = some []
  versus_all a b traces (m ∷ ms) = add_versus m (versus a b traces m) (versus_all a b traces ms)

  -- `if ref in per_trace and {label, ref} <= complete`
  unfoldable pub versus_reference :
      Dict (Score A)
      → List String
      → Dict (TraceRuns A)
      → (label ref : String) → Dict (Dict (Versus A))
      → Option (Dict (Dict (Versus A)))
  unfolding versus_all
  versus_reference scores traces per_trace label ref found = elim (get ref per_trace) [
    | none ↦ some found
    | some reference ↦ elim (get label per_trace) [
      | none ↦ some found
      | some runs ↦
          if is_complete scores label && is_complete scores ref
          then elim (versus_all runs reference traces lower_is_better) [
            | none ↦ none
            | some row ↦ some (put label row found)
          ]
          else some found
    ]
  ]

  unfoldable pub versus_labels :
      Dict (Score A)
      → List String
      → Dict (TraceRuns A)
      → (ref : String) → (labels : List String) → Dict (Dict (Versus A))
      → Option (Dict (Dict (Versus A)))
  unfolding versus_reference
  versus_labels scores traces per_trace ref [] found = some found
  versus_labels scores traces per_trace ref (label ∷ labels) found =
      elim (versus_reference scores traces per_trace label ref found) [
        | none ↦ none
        | some found' ↦ versus_labels scores traces per_trace ref labels found'
      ]

-- ===== src/Search/Compare/Pairs.antt =====
-- The comparisons of `_versus` are there where the runs report the metrics (loop/dse.py).
use paper_to_pipeline.Base.{
  ◌≡◌, refl, String, Option, none, some, List, [], ◌∷◌, All, In, Bool-cases, inl, inr, string_eq,
  ◌&&◌,
}
use paper_to_pipeline.Base.Dict.{Dict, get, put}
use paper_to_pipeline.Base.Numbers.{Arith}
use paper_to_pipeline.Search.Scores.{
  TraceRuns, Score, Versus, lower_is_better, run_of, is_complete, paired, add_pair, versus,
  versus_all, versus_of, versus_reference, versus_labels,
}
use paper_to_pipeline.Search.Compare.Runs.{HasMetrics, AllReport, get_All, run_metric}

module _ {A : Type 0} where
  paired_given :
      (metrics : List String) (metric : String) (a b : TraceRuns A) (ts : List String)
      → In metric metrics
      → All (λ run. HasMetrics metrics run.1) a
      → All (λ run. HasMetrics metrics run.1) b
      → (ps : List (A × A)) × (paired metric a b ts ≡ some ps)
  unfolding paired
  paired_given metrics metric a b [] m p q = ([], refl)
  paired_given metrics metric a b (t ∷ ts) m p q =
      let (ps, rest) = paired_given metrics metric a b ts m p q in
      both ps rest (run_of a t) (run_of b t) (λ row e. run_metric metrics a t row metric p e m)
        (λ row e. run_metric metrics b t row metric q e m)
    where
      both :
          (ps : List (A × A))
          → paired metric a b ts ≡ some ps
          → (x y : Option (Dict A))
          → ((row : Dict A) → x ≡ some row → (u : A) × (get metric row ≡ some u))
          → ((row : Dict A) → y ≡ some row → (u : A) × (get metric row ≡ some u))
          → (qs : List (A × A)) × (elim x [
            | none ↦ paired metric a b ts
            | some r ↦ elim y [
              | none ↦ paired metric a b ts
              | some s ↦ add_pair (get metric r) (get metric s) (paired metric a b ts)
            ]
          ]
              ≡ some qs)
      both ps rest none y f g = (ps, rest)
      both ps rest (some r) none f g = (ps, rest)
      both ps rest (some r) (some s) f g =
          let (u, at_r) = f r refl in
          let (v, at_s) = g s refl in ((u, v) ∷ ps, rw (at_r, at_s, rest))

module _ {A : Type 0} ⦃n : Arith A⦄ where
  versus_given :
      (metrics : List String) (metric : String) (a b : TraceRuns A) (traces : List String)
      → In metric metrics
      → All (λ run. HasMetrics metrics run.1) a
      → All (λ run. HasMetrics metrics run.1) b
      → (row : Versus A) × (versus a b traces metric ≡ some row)
  unfolding versus
  versus_given metrics metric a b traces m p q =
      let (ps, e) = paired_given metrics metric a b traces m p q in (versus_of ps, rw (versus, e))

  versus_all_given :
      (metrics : List String) (a b : TraceRuns A) (traces ms : List String)
      → ((m : String) → In m ms → In m metrics)
      → All (λ run. HasMetrics metrics run.1) a
      → All (λ run. HasMetrics metrics run.1) b
      → (rows : Dict (Versus A)) × (versus_all a b traces ms ≡ some rows)
  unfolding versus_all
  versus_all_given metrics a b traces [] sub p q = ([], refl)
  versus_all_given metrics a b traces (m ∷ ms) sub p q =
      let (row, first) = versus_given metrics m a b traces (sub m (inl refl)) p q in
      let (rows, rest) = versus_all_given metrics a b traces ms (λ k i. sub k (inr i)) p q in
      ((m, row) ∷ rows, rw (first, rest))

  versus_reference_given :
      (metrics : List String) (scores : Dict (Score A)) (traces : List String)
      (per_trace : Dict (TraceRuns A)) (label ref : String) (found : Dict (Dict (Versus A)))
      (x y : Option (TraceRuns A))
      → get ref per_trace ≡ x
      → get label per_trace ≡ y
      → ((m : String) → In m lower_is_better → In m metrics)
      → AllReport metrics per_trace
      → (rows : Dict (Dict (Versus A))) × (versus_reference scores traces per_trace label ref found
          ≡ some rows)
  unfolding versus_reference
  versus_reference_given metrics scores traces per_trace label ref found none y e f sub all =
      (found, rw (versus_reference, e))
  versus_reference_given metrics scores traces per_trace label ref found (some b) none e f sub all =
      (found, rw (versus_reference, e, f))
  versus_reference_given metrics scores traces per_trace label ref found (some b) (some a) e f sub
        all =
      let reports = λ (k : String) (runs : TraceRuns A) (g : get k per_trace ≡ some runs).
        get_All (λ runs'. All (λ run. HasMetrics metrics run.1) runs') k per_trace runs g all in
      let (rows, given) =
        versus_all_given metrics a b traces lower_is_better sub (reports label a f)
          (reports ref b e) in
      elim (Bool-cases (is_complete scores label && is_complete scores ref)) [
        | inl both ↦ (put label rows found, rw (versus_reference, e, f, both, given))
        | inr other ↦ (found, rw (versus_reference, e, f, other))
      ]

  pub versus_labels_given :
      (metrics : List String) (scores : Dict (Score A)) (traces : List String)
      (per_trace : Dict (TraceRuns A)) (ref : String) (labels : List String)
      (found : Dict (Dict (Versus A)))
      → ((m : String) → In m lower_is_better → In m metrics)
      → AllReport metrics per_trace
      → (rows : Dict (Dict (Versus A))) × (versus_labels scores traces per_trace ref labels found
          ≡ some rows)
  unfolding versus_labels
  versus_labels_given metrics scores traces per_trace ref [] found sub all = (found, refl)
  versus_labels_given metrics scores traces per_trace ref (label ∷ labels) found sub all =
      let (next, first) =
        versus_reference_given metrics scores traces per_trace label ref found _ _ refl refl sub
          all in
      let (rows, rest) =
        versus_labels_given metrics scores traces per_trace ref labels next sub all in
      (rows, rw (versus_labels, first) rest)

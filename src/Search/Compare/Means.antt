-- ===== src/Search/Compare/Means.antt =====
-- The mean of a metric over the traces (loop/dse.py, `compare_variants`, `_mean`).
use paper_to_pipeline.Base.{
  ◌≡◌, refl, sym, ◌∙◌, ◌≢◌, String, true, false, Option, none, some, List, [], ◌∷◌, All, In,
  Bool-cases, inl, inr, string_eq, ◌==◌, ==_iff, ap,
}
use paper_to_pipeline.Base.Dict.{Dict, get}
use paper_to_pipeline.Base.Numbers.{Arith}
use paper_to_pipeline.Search.Scores.{
  TraceRuns, promote_metrics, ok_runs, column, mean, means_of, score_runs, score_all,
}
use paper_to_pipeline.Search.Compare.{screened}
use paper_to_pipeline.Search.Scores.{sum_from}
use paper_to_pipeline.Base.{length}
use paper_to_pipeline.Base.Numbers.{zero_num}
use paper_to_pipeline.Search.Compare.Runs.{
  HasRun, RanAll, HasMetrics, AllReport, get_All, run_iff, run_metric, found_score,
  score_of-score_all,
}

module _ {A : Type 0} where
  -- The values that the runs report for a metric, trace by trace.
  abbrev pub Values : TraceRuns A → String → List String → List A → Type 0
  Values runs metric [] values = values ≡ []
  Values runs metric (t ∷ ts) values =
      (row : Dict A) × (x : A) × (rest : List A) × (get t runs ≡ some (some row))
      × (row ≢ [])
      × (get metric row ≡ some x)
      × (values ≡ x ∷ rest)
      × Values runs metric ts rest

  Values-column :
      (runs : TraceRuns A) (metric : String) (ts : List String) (values : List A)
      → Values runs metric ts values
      → column metric (ok_runs runs ts) ≡ values
  unfolding column ok_runs
  Values-column runs metric [] values h = sym h
  Values-column runs metric (t ∷ ts) values (row, x, rest, there, some_row, reported, same, more) =
      let found = (run_iff runs t row).1 (there, some_row) in
      let here : column metric (ok_runs runs (t ∷ ts)) ≡ x ∷ column metric (ok_runs runs ts) =
        rw (ok_runs, found, column, reported) in
      here ∙ (ap (λ (xs : List A). x ∷ xs) (Values-column runs metric ts rest more) ∙ sym same)

module _ {A : Type 0} ⦃n : Arith A⦄ where
  -- The values of all traces divided by their number.
  abbrev pub IsMean :
      (metric : String) (per_trace : Dict (TraceRuns A)) (traces : List String)
      → String
      → A
      → Type 0
  IsMean metric per_trace traces label x =
      (runs : TraceRuns A) × (values : List A) × (get label per_trace ≡ some runs)
      × Values runs metric traces values
      × (x ≡ n.div (sum_from zero_num values) (n.from_count (length values)))

  get-means_of :
      (m : String) (ms : List String) (rows : List (Dict A)) (x : A)
      → mean (column m rows) ≡ some x
      → In m ms
      → get m (means_of ms rows) ≡ some x
  unfolding means_of
  get-means_of m [] rows x h i = absurd i
  get-means_of m (k ∷ ks) rows x h i = elim (Bool-cases (k == m)) [
    | inl e ↦
        here e (mean (column k rows))
          (ap (λ (j : String). mean (column j rows)) ((==_iff k m).0 e) ∙ h)
    | inr e ↦ later e (mean (column k rows)) (get-means_of m ks rows x h (tail e i))
  ]
    where
      tail : (k == m) ≡ false → In m (k ∷ ks) → In m ks
      tail e (inl same) = (let clash = sym e ∙ (==_iff k m).1 (sym same) in cc)
      tail e (inr there) = there

      here :
          (k == m) ≡ true
          → (found : Option A) → found ≡ some x
          → get m (elim found [ none ↦ means_of ks rows | some y ↦ (k, y) ∷ means_of ks rows ])
            ≡ some x
      here e none f = cc
      here e (some y) f = rw e f

      later :
          (k == m) ≡ false
          → (found : Option A) → get m (means_of ks rows) ≡ some x
          → get m (elim found [ none ↦ means_of ks rows | some y ↦ (k, y) ∷ means_of ks rows ])
            ≡ some x
      later e none rest = rest
      later e (some y) rest = rw e rest

  mean_cons :
      (values : List A)
      → values ≢ []
      → mean values ≡ some (n.div (sum_from zero_num values) (n.from_count (length values)))
  unfolding mean
  mean_cons [] h = absurd (h refl)
  mean_cons (x ∷ xs) h = refl

  Values-some :
      (runs : TraceRuns A) (metric : String) (traces : List String) (values : List A)
      → traces ≢ []
      → Values runs metric traces values
      → values ≢ []
  Values-some runs metric [] values h vs = absurd (h refl)
  Values-some runs metric (t ∷ ts) values h (row, x, rest, there, some_row, reported, same, more) =
      λ none_there. (let clash : x ∷ rest ≡ [] = sym same ∙ none_there in cc)

  -- The mean is what the variant is ranked by.
  pub screened-IsMean :
      (metric : String) (finalists traces : List String) (per_trace : Dict (TraceRuns A))
      (label : String) (x : A)
      → In metric promote_metrics
      → traces ≢ []
      → IsMean metric per_trace traces label x
      → screened metric finalists (score_all traces per_trace) label ≡ some x
  unfolding score_runs
  screened-IsMean metric finalists traces per_trace label x p some_traces
        (runs, values, e, vs, is_x) =
      let is_mean : mean (column metric (ok_runs runs traces)) ≡ some x =
        ap mean (Values-column runs metric traces values vs)
        ∙ (mean_cons values (Values-some runs metric traces values some_traces vs)
            ∙ ap some (sym is_x)) in
      ap (λ s. get metric s.means) (score_of-score_all traces label per_trace)
      ∙ (ap (λ found. get metric (found_score traces label found).means) e
          ∙ get-means_of metric promote_metrics (ok_runs runs traces) x is_mean p)

  column-Values :
      (metrics : List String) (metric : String) (runs : TraceRuns A) (ts : List String)
      → In metric metrics
      → All (λ run. HasMetrics metrics run.1) runs
      → All (HasRun runs) ts
      → (values : List A) × Values runs metric ts values
  column-Values metrics metric runs [] m reports h = ([], refl)
  column-Values metrics metric runs (t ∷ ts) m reports ((row, there, some_row), rest) =
      let (x, at) =
        run_metric metrics runs t row metric reports ((run_iff runs t row).1 (there, some_row)) m in
      let (values, vs) = column-Values metrics metric runs ts m reports rest in
      (x ∷ values, (row, x, values, there, some_row, at, refl, vs))

  -- A variant that ran every trace has a mean of a metric that its runs report.
  pub RanAll-IsMean :
      (metrics : List String) (metric : String) (traces : List String)
      (per_trace : Dict (TraceRuns A)) (label : String)
      → In metric metrics
      → AllReport metrics per_trace
      → RanAll per_trace traces label
      → (x : A) × IsMean metric per_trace traces label x
  RanAll-IsMean metrics metric traces per_trace label m all (runs, e, ran) =
      let reports =
        get_All (λ runs'. All (λ run. HasMetrics metrics run.1) runs') label per_trace runs e all in
      let (values, vs) = column-Values metrics metric runs traces m reports ran in
      (_, (runs, values, e, vs, refl))

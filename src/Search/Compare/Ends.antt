-- ===== src/Search/Compare/Ends.antt =====
-- How a comparison ends (loop/dse.py, `compare_variants`), as a statement of its runs.
use paper_to_pipeline.Base.{◌≡◌, ◌≢◌, String, false, List, [], ◌∷◌, All, In}
use paper_to_pipeline.Base.Dict.{Dict}
use paper_to_pipeline.Base.Numbers.{Arith}
use paper_to_pipeline.Constraints.Static.{Constraint, check_measured}
use paper_to_pipeline.Search.Scores.{TraceRuns, score_of, score_all}
use paper_to_pipeline.Search.Compare.Means.{IsMean}
use paper_to_pipeline.Search.Compare.Runs.{RanAll}
use paper_to_pipeline.Base.{string_eq}
use paper_to_pipeline.Search.Compare.{
  Verdict, Decision, incomplete, none_eligible, decided, aggregate_of,
}

module _ {A : Type 0} ⦃n : Arith A⦄ (metric : String) (per_trace : Dict (TraceRuns A))
    (traces finalists : List String) (constraints : List (Constraint A)) where
  -- The variant ran every trace, and its means meet every measured constraint.
  abbrev pub Qualifies : String → Type 0
  Qualifies f =
      RanAll per_trace traces f
      × (check_measured (aggregate_of (score_of (score_all traces per_trace) f)) constraints ≡ [])

  -- `x` is the mean of the screening metric over the runs of all traces.
  abbrev pub HasMean : String → A → Type 0
  HasMean f x = IsMean metric per_trace traces f x

  -- The winner is a finalist that qualifies, no finalist that does has a strictly lower mean, and the
  -- three comparisons are those of the means of the winner and the references.
  pub record Wins (v : Verdict A) : Type 0 where
    pub is_finalist : In v.winner finalists
    pub qualifies : Qualifies v.winner
    pub baseline_ran : RanAll per_trace traces "baseline"
    pub defaults_ran : RanAll per_trace traces "defaults"
    pub best : A
    pub baseline : A
    pub defaults : A
    pub is_best : HasMean v.winner best
    pub is_baseline : HasMean "baseline" baseline
    pub is_defaults : HasMean "defaults" defaults
    pub beats_baseline : v.tuned_beats_baseline ≡ n.lt best baseline
    pub beats_defaults : v.tuned_beats_defaults ≡ n.lt best defaults
    pub defaults_beat : v.defaults_beat_baseline ≡ n.lt defaults baseline
    pub lowest :
        (f : String) (x : A) → In f finalists → Qualifies f → HasMean f x → n.lt x best ≡ false

  -- What the comparison says of how it ends.
  abbrev pub IsDecision : Decision A → Type 0
  IsDecision (incomplete missing) =
      (missing ≢ [])
      × All (λ ref. In ref ("baseline" ∷ "defaults" ∷ []) × ¬ RanAll per_trace traces ref) missing
  IsDecision none_eligible =
      RanAll per_trace traces "baseline"
      × RanAll per_trace traces "defaults"
      × All (λ f. ¬ Qualifies f) finalists
  IsDecision (decided v) = Wins v

-- ===== src/Search/Compare.antt =====
-- The decision between promoted variants (loop/dse.py, `compare_variants`): `none` where it raises.
pub mod Runs
pub mod Pairs
pub mod Ends
pub mod Means
pub mod Least
pub mod Winner
use paper_to_pipeline.Base.{
  ℕ, zero, suc, String, Bool, true, false, Option, none, some, List, [], ◌∷◌, ◌++◌, keep, length,
  contains, not, is_empty, ◌&&◌, ◌==◌, string_eq, ltb, if◌then◌else◌,
}
use paper_to_pipeline.Base.Dict.{Dict, get, put}
use paper_to_pipeline.Base.Numbers.{Arith, zero_num}
use paper_to_pipeline.Constraints.Static.{Constraint, check_measured}
use paper_to_pipeline.Search.Scores.{
  TraceRuns, lower_is_better, promote_metrics, is_given, run_of, ok_runs, column, score_of,
  is_complete, sum_from, mean, means_of, score_runs, score_all, paired, change_of, firsts, seconds,
  versus, versus_all, versus_reference, versus_labels, Score, Versus,
}

pub record Verdict (A : Type 0) : Type 0 where
  pub winner : String
  pub screening_winner_held : Bool
  pub tuned_beats_baseline : Bool
  pub tuned_beats_defaults : Bool
  pub defaults_beat_baseline : Bool

-- How the comparison ends.
pub data Decision (A : Type 0) : Type 0 where
  incomplete : (missing : List String) → Decision A
  none_eligible : Decision A
  decided : Verdict A → Decision A

pub record VariantComparison (A : Type 0) : Type 0 where
  pub variants : Dict (Score A)
  pub vs_baseline : Dict (Dict (Versus A))
  pub vs_defaults : Dict (Dict (Versus A))
  pub decision : Decision A

-- `finalists.index(f)`
abbrev pub place_in : List String → String → ℕ
place_in [] f = 0
place_in (g ∷ gs) f = if g == f then 0 else suc (place_in gs f)

-- `winner == finalists[0]`
abbrev pub is_first : List String → String → Bool
is_first [] f = false
is_first (g ∷ gs) f = f == g

-- The labels of a dict, in order.
abbrev pub labels_of : {X : Type 0} → Dict X → List String
labels_of [] = []
labels_of ((label, x) ∷ d) = label ∷ labels_of d

module _ {A : Type 0} ⦃n : Arith A⦄ where
  -- The score as `check_measured` reads it.
  abbrev pub aggregate_of : Score A → Dict A
  aggregate_of s = ("n", n.from_count s.n) ∷ s.means

  -- `a < b`: a missing value is `None`, and its order is a `TypeError`.
  abbrev pub less : Option A → Option A → Option Bool
  less (some a) (some b) = some (n.lt a b)
  less _ _ = none

  -- The keys by which `min` compares: two equal first parts leave the order to the second.
  abbrev pub key_less : Option A × ℕ → Option A × ℕ → Option Bool
  key_less (some a, i) (some b, j) = some (if not (n.eq a b) then n.lt a b else ltb i j)
  key_less (none, i) (none, j) = some (ltb i j)
  key_less _ _ = none

module _ {A : Type 0} ⦃n : Arith A⦄ (metric : String) (finalists : List String)
    (scores : Dict (Score A)) where
  abbrev pub screened : String → Option A
  screened f = get metric (score_of scores f).means

  abbrev pub rank_key : String → Option A × ℕ
  rank_key f = (screened f, place_in finalists f)

  -- `min(eligible, key=...)`, from the first of them on.
  unfoldable pub min_from : (best : String) → List String → Option String
  min_from best [] = some best
  min_from best (f ∷ fs) = elim (key_less (rank_key f) (rank_key best)) [
    | none ↦ none
    | some lower ↦ min_from (if lower then f else best) fs
  ]

  -- `result["verdict"]`
  unfoldable pub verdict_of :
      (winner : String)
      → (tuned_baseline tuned_defaults defaults_baseline : Option Bool) → Option (Decision A)
  verdict_of winner (some tuned_baseline) (some tuned_defaults) (some defaults_baseline) = some (
      decided (record {
        winner = winner;
        screening_winner_held = is_first finalists winner;
        tuned_beats_baseline = tuned_baseline;
        tuned_beats_defaults = tuned_defaults;
        defaults_beat_baseline = defaults_baseline;
      }))
  verdict_of winner _ _ _ = none

  abbrev pub is_eligible : List (Constraint A) → String → Bool
  is_eligible constraints f =
      is_complete scores f
      && is_empty (check_measured (aggregate_of (score_of scores f)) constraints)

  unfoldable pub decide_winner : (eligible : List String) → Option (Decision A)
  unfolding min_from verdict_of
  decide_winner [] = some none_eligible
  decide_winner (f ∷ fs) = elim (min_from f fs) [
    | none ↦ none
    | some winner ↦
        verdict_of winner (less (screened winner) (screened "baseline"))
          (less (screened winner) (screened "defaults"))
          (less (screened "defaults") (screened "baseline"))
  ]

  unfoldable pub decide : List (Constraint A) → Option (Decision A)
  unfolding decide_winner check_measured
  decide constraints =
      let missing = keep (λ ref. not (is_complete scores ref)) ("baseline" ∷ "defaults" ∷ []) in
      if not (is_empty missing)
      then some (incomplete missing)
      else decide_winner (keep (is_eligible constraints) finalists)

module _ {A : Type 0} ⦃n : Arith A⦄ (metric : String) where
  unfoldable pub compare_variants :
      Dict (TraceRuns A)
      → (traces finalists : List String) → List (Constraint A)
      → Option (VariantComparison A)
  unfolding score_all versus_labels decide
  compare_variants per_trace traces finalists constraints =
      let scores = score_all traces per_trace in
      let others = keep (λ label. not (label == "baseline")) (labels_of per_trace) in
      elim (versus_labels scores traces per_trace "baseline" others []) [
        | none ↦ none
        | some vs_baseline ↦ elim (versus_labels scores traces per_trace "defaults" finalists []) [
          | none ↦ none
          | some vs_defaults ↦ elim (decide metric finalists scores constraints) [
            | none ↦ none
            | some decision ↦ some (record {
              variants = scores;
              vs_baseline = vs_baseline;
              vs_defaults = vs_defaults;
              decision = decision;
            })
          ]
        ]
      ]

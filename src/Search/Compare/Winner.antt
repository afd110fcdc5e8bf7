-- ===== src/Search/Compare/Winner.antt =====
-- The winner of a comparison (loop/dse.py, `compare_variants`).
use mathlib.Core.Bool.{false≢true}
use paper_to_pipeline.Base.{
  if_ind, ◌≡◌, refl, sym, subst, ◌≢◌, String, Bool, true, false, List, [], ◌∷◌, All_lookup,
  All_intro, In, In-keep, keep, keep-eq-nil, not, is_empty, is_empty_iff, &&_iff, inl, inr,
}
use paper_to_pipeline.Base.Dict.{Dict}
use paper_to_pipeline.Base.Numbers.{Arith, OrderLaws}
use paper_to_pipeline.Constraints.Static.{Constraint, check_measured}
use paper_to_pipeline.Search.Scores.{TraceRuns, Score, score_of, is_complete, score_all}
use paper_to_pipeline.Base.{◌↔◌, ◌==◌}
use paper_to_pipeline.Search.Compare.Least.{min_from-IsLeast}
use paper_to_pipeline.Search.Scores.{Versus, lower_is_better, promote_metrics}
use paper_to_pipeline.Search.Compare.Means.{screened-IsMean, RanAll-IsMean}
use paper_to_pipeline.Search.Compare.Pairs.{versus_labels_given}
use paper_to_pipeline.Search.Compare.Ends.{Qualifies, HasMean, IsDecision}
use paper_to_pipeline.Search.Compare.Runs.{RanAll, AllReport, is_complete_iff}
use paper_to_pipeline.Base.{◌∙◌, Option, some, none, All_mono, string_eq}
use paper_to_pipeline.Search.Compare.{
  VariantComparison, Verdict, labels_of, is_first, verdict_of, Decision, incomplete, none_eligible,
  decided, aggregate_of, screened, is_eligible, decide_winner, decide, compare_variants,
}

not_empty : (xs : List String) → not (is_empty xs) ≡ true → xs ≢ []
not_empty [] h same = cc
not_empty (x ∷ xs) h same = cc

all_there : (xs : List String) → not (is_empty xs) ≡ false → xs ≡ []
all_there [] h = refl
all_there (x ∷ xs) h = cc

not-true : (b : Bool) → not b ≡ true → b ≡ false
not-true true h = sym h
not-true false h = refl

not-false : (b : Bool) → not b ≡ false → b ≡ true
not-false true h = refl
not-false false h = sym h

module _ {A : Type 0} ⦃n : Arith A⦄ (metric : String) (per_trace : Dict (TraceRuns A))
    (traces finalists : List String) (constraints : List (Constraint A)) where
  eligible_iff :
      (f : String)
      → (is_eligible metric finalists (score_all traces per_trace) constraints f ≡ true)
        ↔ Qualifies metric per_trace traces finalists constraints f
  eligible_iff f =
      let parts = &&_iff (is_complete (score_all traces per_trace) f) (
        is_empty
          (check_measured (aggregate_of (score_of (score_all traces per_trace) f)) constraints)) in
      let ran = is_complete_iff traces f per_trace in
      (
        λ h. (let (p, q) = parts.0 h in (ran.0 p, (is_empty_iff _).0 q)),
        λ h. parts.1 (ran.1 h.0, (is_empty_iff _).1 h.1),
      )

  module _ (laws : OrderLaws A n)
      (valued : (f : String)
        → RanAll per_trace traces f
        → (x : A) × HasMean metric per_trace traces finalists constraints f x)
      (ranked : (f : String) (x : A)
        → HasMean metric per_trace traces finalists constraints f x
        → screened metric finalists (score_all traces per_trace) f ≡ some x) where
    abbrev variants : Dict (Score A)
    variants = score_all traces per_trace

    Decides : Option (Decision A) → Type 0
    Decides found =
        (d : Decision A) × (found ≡ some d)
        × IsDecision metric per_trace traces finalists constraints d

    decide_winner-IsDecision :
        (eligible : List String)
        → keep (is_eligible metric finalists variants constraints) finalists ≡ eligible
        → RanAll per_trace traces "baseline"
        → RanAll per_trace traces "defaults"
        → Decides (decide_winner metric finalists variants eligible)
    unfolding decide_winner Decides verdict_of
    decide_winner-IsDecision [] same baseline_ran defaults_ran = (
      none_eligible,
      refl,
      (
        baseline_ran,
        defaults_ran,
        All_mono _ _ finalists
            (λ f _ out good. (let clash = sym out ∙ (eligible_iff f).1 good in cc))
            ((keep-eq-nil _ finalists).0 same),
      ),
    )
    decide_winner-IsDecision (f ∷ fs) same baseline_ran defaults_ran =
        let test = is_eligible metric finalists variants constraints in
        let qualified : (g : String)
            → In g (f ∷ fs)
            → In g finalists × Qualifies metric per_trace traces finalists constraints g =
          λ g m.
            let (here, good) = (In-keep test g finalists).0 (subst (In g) (sym same) m) in
            (here, (eligible_iff g).0 good) in
        let scored =
          All_intro (λ g. (x : A) × (screened metric finalists variants g ≡ some x)) (f ∷ fs)
            (λ g m. (let (x, is_x) = valued g (qualified g m).1.0 in (x, ranked g x is_x))) in
        let (w, found, (m, least)) = min_from-IsLeast laws metric finalists variants f fs scored in
        let (here, good) = qualified w m in
        let (best, at) = valued w good.0 in
        let (baseline, at_baseline) = valued "baseline" baseline_ran in
        let (defaults, at_defaults) = valued "defaults" defaults_ran in
        let v : Verdict A = record {
          winner = w;
          screening_winner_held = is_first finalists w;
          tuned_beats_baseline = n.lt best baseline;
          tuned_beats_defaults = n.lt best defaults;
          defaults_beat_baseline = n.lt defaults baseline;
        } in
        (
          decided v,
          rw
              (
                decide_winner,
                found,
                ranked w best at,
                ranked "baseline" baseline at_baseline,
                ranked "defaults" defaults at_defaults,
              )
              refl,
          record {
            is_finalist = here;
            qualifies = good;
            baseline_ran = baseline_ran;
            defaults_ran = defaults_ran;
            best = best;
            baseline = baseline;
            defaults = defaults;
            is_best = at;
            is_baseline = at_baseline;
            is_defaults = at_defaults;
            beats_baseline = refl;
            beats_defaults = refl;
            defaults_beat = refl;
            lowest = λ g x there fit is_x.
                All_lookup _ (f ∷ fs) g least
                  (subst (In g) same ((In-keep test g finalists).1 (there, (eligible_iff g).1 fit)))
                  x best (ranked g x is_x) (ranked w best at);
          },
        )

    decide-IsDecision : Decides (decide metric finalists variants constraints)
    unfolding decide Decides
    decide-IsDecision =
        let references = "baseline" ∷ "defaults" ∷ [] in
        let absent = λ (ref : String). not (is_complete variants ref) in
        let missing = keep absent references in
        let ran = λ (ref : String). is_complete_iff traces ref per_trace in
        if_ind Decides (not (is_empty missing)) _ _
          (λ some_missing. (
            incomplete missing,
            refl,
            (
              not_empty missing some_missing,
              All_intro _ missing (λ ref m.
                  let (here, out) = (In-keep absent ref references).0 m in
                  (
                    here,
                    λ all_ran. absurd (false≢true (sym (not-true _ out) ∙ (ran ref).1 all_ran)),
                  )),
            ),
          ))
          (λ none_missing.
            let complete = (keep-eq-nil absent references).0 (all_there missing none_missing) in
            decide_winner-IsDecision _ refl ((ran "baseline").0 (not-false _ complete.0))
              ((ran "defaults").0 (not-false _ complete.1.0)))

module _ {A : Type 0} ⦃n : Arith A⦄ where
  abbrev comparison :
      Dict (Score A)
      → (vs_baseline vs_defaults : Dict (Dict (Versus A))) → Decision A
      → VariantComparison A
  comparison all_scores vs_baseline vs_defaults d = record {
    variants = all_scores;
    vs_baseline = vs_baseline;
    vs_defaults = vs_defaults;
    decision = d;
  }

  some_comparison :
      (all_scores : Dict (Score A)) (x y : Option (Dict (Dict (Versus A))))
      (z : Option (Decision A)) (vs_baseline vs_defaults : Dict (Dict (Versus A))) (d : Decision A)
      → x ≡ some vs_baseline
      → y ≡ some vs_defaults
      → z ≡ some d
      → (elim x [
        | none ↦ none
        | some vs_baseline' ↦ elim y [
          | none ↦ none
          | some vs_defaults' ↦ elim z [
            | none ↦ none
            | some decision ↦ some (comparison all_scores vs_baseline' vs_defaults' decision)
          ]
        ]
      ])
        ≡ some (comparison all_scores vs_baseline vs_defaults d)
  some_comparison all_scores x y z vs_baseline vs_defaults d p q r = rw (p, q, r) refl

  -- For an order of the numbers, at least one trace, a screening metric that is promoted, and runs
  -- that report it and the compared metrics unless they failed: the comparison does not raise, and it
  -- ends in one of three ways. It names references that did not run every trace; or it names no
  -- winner, both references ran every trace, and no finalist ran every trace with means that meet the
  -- measured constraints; or it names a finalist that did, no other such finalist has a strictly lower
  -- mean of the screening metric, and the verdict compares the means of the winner and the references.
  pub compare_variants-IsDecision :
      (laws : OrderLaws A n) (metric : String) (per_trace : Dict (TraceRuns A))
      (traces finalists : List String) (constraints : List (Constraint A))
      → In metric promote_metrics
      → traces ≢ []
      → AllReport (metric ∷ lower_is_better) per_trace
      → (c : VariantComparison A) × (compare_variants metric per_trace traces finalists constraints
          ≡ some c)
        × IsDecision metric per_trace traces finalists constraints c.decision
  unfolding compare_variants Decides
  compare_variants-IsDecision laws metric per_trace traces finalists constraints promoted some_trace
        all =
      let metrics = metric ∷ lower_is_better in
      let scores = score_all traces per_trace in
      let others = keep (λ label. not (label == "baseline")) (labels_of per_trace) in
      let (vs_baseline, p) =
        versus_labels_given metrics scores traces per_trace "baseline" others [] (λ m i. inr i)
          all in
      let (vs_defaults, q) =
        versus_labels_given metrics scores traces per_trace "defaults" finalists [] (λ m i. inr i)
          all in
      let (d, r, is_decision) =
        decide-IsDecision metric per_trace traces finalists constraints laws
          (λ f ran. RanAll-IsMean metrics metric traces per_trace f (inl refl) all ran)
          (λ f x is_x.
            screened-IsMean metric finalists traces per_trace f x promoted some_trace is_x) in
      (
        comparison scores vs_baseline vs_defaults d,
        some_comparison scores _ _ _ vs_baseline vs_defaults d p q r,
        is_decision,
      )

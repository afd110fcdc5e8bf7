-- ===== src/Search/Preflight/Added.antt =====
-- What one knob adds to a report that stays without a blocking item (loop/dse.py, `preflight`).
use paper_to_pipeline.Base.{
  if_ind, ◌≡◌, refl, sym, ◌∙◌, ap, String, Bool, false, Option, none, some, List, [], ◌∷◌, ◌++◌,
  append-eq-nil, ==_iff, ◌==◌, string_eq,
}
use mathlib.Core.Bool.{false≢true}
use paper_to_pipeline.Base.Json.{Json}
use paper_to_pipeline.Base.Numbers.{Arith}
use paper_to_pipeline.Constraints.Ranges.{Python}
use paper_to_pipeline.Constraints.Knobs.{Knob, is_pinned, alternate_value}
use paper_to_pipeline.Constraints.Storage.{Spec, PortPlan}
use paper_to_pipeline.Search.Header.{Printer}
use paper_to_pipeline.Search.Preflight.{
  Kit, Trees, pinned, no_second_value, does_not_build, inert, live, KnobEntry, BuildNote,
  no_value_to_test, value_does_not_build, nothing_reads, BuildReport, digest, is_costed,
  judge_variant, check_knob,
}
use paper_to_pipeline.Search.Preflight.Costs.{costed_iff}
use paper_to_pipeline.Search.Preflight.Passes.{
  build_at, Passes, has_one_value, has_no_second, fails, is_unread, is_read, entry_of,
  entry_of-IsEntry,
}

cons-ne-nil : {X : Type 0} {x : X} {xs : List X} → ¬ (x ∷ xs ≡ [])
cons-ne-nil h = cc

module _ {S A B : Type 0} ⦃n : Arith A⦄ (python : Python A) (printer : Printer A) (trees : Trees)
    (kit : Kit S B) (spec : Spec A) (plan : PortPlan A) where
  -- What a knob adds to a report.
  pub record Adds (first : String) (knob : Knob A) (s : S) (report after : BuildReport A) (t : S)
      : Type 0 where
    pub was_clear : report.blocking ≡ []
    pub entry : KnobEntry A
    pub ws : List (BuildNote A)
    pub knobs : after.knobs ≡ report.knobs ++ entry ∷ []
    pub warnings : after.warnings ≡ report.warnings ++ ws
    pub passes : Passes python printer trees kit spec plan first knob s entry ws t

  judge_variant-Adds :
      (first : String) (knob : Knob A) (value : Json A) (variant : Option String)
      (report : BuildReport A) (s : S)
      → alternate_value python knob ≡ some value
      → digest kit (build_at python printer trees kit spec plan knob value s).0 ≡ variant
      → (judge_variant python printer trees kit spec plan
          (some first)
          knob
          value
          variant
          report).blocking
        ≡ []
      → Adds first knob s report
          (judge_variant python printer trees kit spec plan (some first) knob value variant report)
          (build_at python printer trees kit spec plan knob value s).1
  unfolding judge_variant entry_of
  judge_variant-Adds first knob value none report s is_value built h = record {
    was_clear = ((append-eq-nil report.blocking []).0 h).0;
    entry = entry_of python printer trees kit spec plan knob (some value) does_not_build;
    ws = value_does_not_build knob.macro value ∷ [];
    knobs = refl;
    warnings = refl;
    passes =
        fails _ value is_value built
          (entry_of-IsEntry python printer trees kit spec plan knob (some value) does_not_build);
  }
  judge_variant-Adds first knob value (some variant) report s is_value built h =
      let result = λ (r : BuildReport A).
        r.blocking ≡ []
        → Adds first knob s report r (build_at python printer trees kit spec plan knob value s).1 in
      let costly = is_costed python printer trees kit spec plan knob in
      if_ind result (variant == first) _ _
        (λ same.
          let equal = (==_iff variant first).0 same in
          if_ind result costly _ _
            (λ _ blocks. absurd (cons-ne-nil (((append-eq-nil report.blocking _).0 blocks).1)))
            (λ free clear. record {
              was_clear = ((append-eq-nil report.blocking []).0 clear).0;
              entry = entry_of python printer trees kit spec plan knob (some value) inert;
              ws = nothing_reads knob.macro value knob.default false ∷ [];
              knobs = refl;
              warnings =
                  ap
                    (λ (b : Bool).
                      report.warnings ++ nothing_reads knob.macro value knob.default b ∷ [])
                    free;
              passes =
                  is_unread _ value is_value (built ∙ ap some equal)
                    (λ costs.
                      false≢true
                        (sym free ∙ (costed_iff python printer trees spec plan knob.macro).1 costs))
                    (entry_of-IsEntry python printer trees kit spec plan knob (some value) inert);
            }))
        (λ differ clear. record {
          was_clear = ((append-eq-nil report.blocking []).0 clear).0;
          entry = entry_of python printer trees kit spec plan knob (some value) live;
          ws = [];
          knobs = refl;
          warnings = refl;
          passes =
              is_read _ value variant is_value built
                (λ same. false≢true (sym differ ∙ (==_iff variant first).1 same))
                (entry_of-IsEntry python printer trees kit spec plan knob (some value) live);
        })
        h

  pub check_knob-Adds :
      (first : String) (knob : Knob A) (tested : Option (Json A)) (report : BuildReport A) (s : S)
      → alternate_value python knob ≡ tested
      → (let (after, t) =
            check_knob python printer trees kit spec plan (some first) knob tested report s in
          after.blocking ≡ [] → Adds first knob s report after t)
  unfolding check_knob entry_of
  check_knob-Adds first knob (some value) report s is_value h =
      judge_variant-Adds first knob value
        (digest kit (build_at python printer trees kit spec plan knob value s).0) report s is_value
        refl h
  check_knob-Adds first knob none report s absent h' =
      if_ind (λ (r : BuildReport A × S). r.0.blocking ≡ [] → Adds first knob s report r.0 r.1)
        (is_pinned python knob) _ _
        (λ one h. record {
          was_clear = ((append-eq-nil report.blocking []).0 h).0;
          entry = entry_of python printer trees kit spec plan knob none pinned;
          ws = [];
          knobs = refl;
          warnings = refl;
          passes =
              has_one_value _ absent one
                (entry_of-IsEntry python printer trees kit spec plan knob none pinned);
        })
        (λ more h. record {
          was_clear = ((append-eq-nil report.blocking []).0 h).0;
          entry = entry_of python printer trees kit spec plan knob none no_second_value;
          ws = no_value_to_test knob.macro ∷ [];
          knobs = refl;
          warnings = refl;
          passes =
              has_no_second _ absent more
                (entry_of-IsEntry python printer trees kit spec plan knob none no_second_value);
        })
        h'

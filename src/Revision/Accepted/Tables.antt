-- ===== src/Revision/Accepted/Tables.antt =====
-- The rules of loop/plan_revision.py about performance runs, rejected alternatives and the enable
-- knob, and the checks that only remark.
use paper_to_pipeline.Base.{
  ◌≡◌, refl, ◌↔◌, inl, inr, Bool, true, false, List, [], ◌∷◌, Eq, Option, none, some, String, All,
  not, if◌then◌else◌, Option-cases, arith, ◌||◌, ap, sym,
}
use mathlib.Core.Option.{some-injective}
use paper_to_pipeline.Base.Json.{Json, str, Fields, json_eq}
use paper_to_pipeline.Findings.{blocking}
use paper_to_pipeline.Revision.Documents.{value, dict_at, Table, find, entries, by_text}
use paper_to_pipeline.Revision.Guard.{
  Segment, Note, remark, enable_refusals, enable_remarks, check_feature_enable, is_recorded,
  check_run, check_runs, check_performance_run, check_alternative, check_alternatives,
  check_rejected_alternatives, check_status, check_statuses, check_fidelity,
}
use paper_to_pipeline.Revision.Accepted.Entries.{IsClear, IsClear-append, IsClear_nil, refusal_iff}
use paper_to_pipeline.Revision.Accepted.Rules.{Same, same_iff}

module _ {A : Type 0} where
  remark-IsClear :
      (t : Bool) (pointer : List (Segment A)) (code : String) (note : Note A)
      → IsClear (if t then [] else remark pointer code note)
  unfolding blocking
  remark-IsClear true pointer code note = refl
  remark-IsClear false pointer code note = refl

  remark-IsClear_if :
      (t : Bool) (pointer : List (Segment A)) (code : String) (note : Note A)
      → IsClear (if t then remark pointer code note else [])
  unfolding blocking
  remark-IsClear_if true pointer code note = refl
  remark-IsClear_if false pointer code note = refl

module _ {A : Type 0} ⦃e : Eq A⦄ where
  -- An entry scored against a recorded number measures by the same `run`.
  abbrev pub RunKept : Table A (Fields A) → Json A × Fields A → Type 0
  RunKept after row =
      (replacement : Fields A)
      → find row.0 after ≡ some replacement
      → value "source" (dict_at "baseline" row.1) ≡ str "recorded"
      → value "run" row.1 ≡ value "run" replacement

  abbrev pub AlternativeKept : Table A (Json A) → Json A × Json A → Type 0
  AlternativeKept after row = find row.0 after ≡ some row.1

  enable_refusals-IsClear :
      (old new : Fields A) (ks : List String)
      → IsClear (enable_refusals old new ks) ↔ Same ks old new
  unfolding enable_refusals
  enable_refusals-IsClear old new [] = (λ _. tt, λ _. IsClear_nil _ _)
  enable_refusals-IsClear old new (k ∷ ks) = (
    λ h.
        let parts = (IsClear-append _ _).0 h in
        (
          (same_iff _ _).0 ((refusal_iff _ _ _ _).0 parts.0),
          (enable_refusals-IsClear old new ks).0 parts.1,
        ),
    λ h. (IsClear-append _ _).1 (
      (refusal_iff _ _ _ _).1 ((same_iff _ _).1 h.0),
      (enable_refusals-IsClear old new ks).1 h.1,
    ),
  )

  enable_remarks-IsClear :
      (old new : Fields A) (ks : List String) → IsClear (enable_remarks old new ks)
  unfolding enable_remarks
  enable_remarks-IsClear old new [] = IsClear_nil _ _
  enable_remarks-IsClear old new (k ∷ ks) =
      (IsClear-append _ _).1 (remark-IsClear _ _ _ _, enable_remarks-IsClear old new ks)

  pub check_feature_enable-IsClear :
      (old new : Fields A)
      → IsClear (check_feature_enable old new)
        ↔ Same ("name" ∷ "macro" ∷ []) (dict_at "feature_enable" old) (dict_at "feature_enable" new)
  unfolding check_feature_enable
  check_feature_enable-IsClear old new = (
    λ h. (enable_refusals-IsClear _ _ _).0 ((IsClear-append _ _).0 h).0,
    λ h. (IsClear-append _ _).1 ((enable_refusals-IsClear _ _ _).1 h, enable_remarks-IsClear _ _ _),
  )

  check_run-IsClear :
      (new : Fields A) (after : Table A (Fields A)) (handle : Json A) (entry : Fields A)
      → IsClear (check_run new entry (find handle after)) ↔ RunKept after (handle, entry)
  unfolding check_run is_recorded
  check_run-IsClear new after handle entry = elim (Option-cases (find handle after)) [
    | inl gone ↦ rw gone (λ _ r found _. cc, λ _. IsClear_nil _ _)
    | inr (r, found) ↦ rw found (
      λ h q same given.
          rw (sym (some-injective _ _ same))
            ((same_iff _ _).0 (first _ _ ((refusal_iff _ _ _ _).0 h) ((same_iff _ _).1 given))),
      λ h.
          (refusal_iff _ _ _ _).1
            (either _ _ (λ given. (same_iff _ _).1 (h r refl ((same_iff _ _).0 given)))),
    )
  ]
    where
      first : (a b : Bool) → (a || not b) ≡ true → b ≡ true → a ≡ true
      first a b = ground arith

      either : (a b : Bool) → (b ≡ true → a ≡ true) → (a || not b) ≡ true
      either a b = ground arith

  check_runs-IsClear :
      (new : Fields A) (after before : Table A (Fields A))
      → IsClear (check_runs new after before) ↔ All (RunKept after) before
  unfolding check_runs
  check_runs-IsClear new after [] = (λ _. tt, λ _. IsClear_nil _ _)
  check_runs-IsClear new after ((handle, entry) ∷ before) = (
    λ h.
        let parts = (IsClear-append _ _).0 h in
        (
          (check_run-IsClear new after handle entry).0 parts.0,
          (check_runs-IsClear new after before).0 parts.1,
        ),
    λ h. (IsClear-append _ _).1 (
      (check_run-IsClear new after handle entry).1 h.0,
      (check_runs-IsClear new after before).1 h.1,
    ),
  )

  pub check_performance_run-IsClear :
      (old new : Fields A)
      → IsClear (check_performance_run old new)
        ↔ All (RunKept (entries new "performance" "id")) (entries old "performance" "id")
  unfolding check_performance_run
  check_performance_run-IsClear old new = check_runs-IsClear new _ _

  check_alternative-IsClear :
      (after : Table A (Json A)) (text entry : Json A)
      → IsClear (check_alternative text entry (find text after))
        ↔ AlternativeKept after (text, entry)
  unfolding check_alternative
  check_alternative-IsClear after text entry = elim (Option-cases (find text after)) [
    | inl gone ↦ rw gone (λ h. cc ((refusal_iff false _ _ _).0 h), λ found. cc)
    | inr (r, found) ↦ rw found (
      λ h. ap some ((same_iff _ _).0 ((refusal_iff _ _ _ _).0 h)),
      λ same. (refusal_iff _ _ _ _).1 ((same_iff _ _).1 (some-injective _ _ same)),
    )
  ]

  check_alternatives-IsClear :
      (after before : Table A (Json A))
      → IsClear (check_alternatives after before) ↔ All (AlternativeKept after) before
  unfolding check_alternatives
  check_alternatives-IsClear after [] = (λ _. tt, λ _. IsClear_nil _ _)
  check_alternatives-IsClear after ((text, entry) ∷ before) = (
    λ h.
        let parts = (IsClear-append _ _).0 h in
        (
          (check_alternative-IsClear after text entry).0 parts.0,
          (check_alternatives-IsClear after before).0 parts.1,
        ),
    λ h. (IsClear-append _ _).1 (
      (check_alternative-IsClear after text entry).1 h.0,
      (check_alternatives-IsClear after before).1 h.1,
    ),
  )

  pub check_rejected_alternatives-IsClear :
      (old new : Fields A)
      → IsClear (check_rejected_alternatives old new)
        ↔ All (AlternativeKept (by_text new)) (by_text old)
  unfolding check_rejected_alternatives
  check_rejected_alternatives-IsClear old new = check_alternatives-IsClear _ _

  check_status-IsClear :
      (handle : Json A) (entry : Fields A) (found : Option (Fields A))
      → IsClear (check_status handle entry found)
  unfolding check_status
  check_status-IsClear handle entry none = IsClear_nil _ _
  check_status-IsClear handle entry (some r) = remark-IsClear_if _ _ _ _

  check_statuses-IsClear :
      (after before : Table A (Fields A)) → IsClear (check_statuses after before)
  unfolding check_statuses
  check_statuses-IsClear after [] = IsClear_nil _ _
  check_statuses-IsClear after ((handle, entry) ∷ before) =
      (IsClear-append _ _).1 (check_status-IsClear _ _ _, check_statuses-IsClear after before)

  -- A loss of fidelity is remarked and never refused.
  pub check_fidelity-IsClear : (old new : Fields A) → IsClear (check_fidelity old new)
  unfolding check_fidelity
  check_fidelity-IsClear old new = check_statuses-IsClear _ _

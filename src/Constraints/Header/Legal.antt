-- ===== src/Constraints/Header/Legal.antt =====
-- When a header is a legal candidate (loop/constraints.py, `knob_values`).
use paper_to_pipeline.Base.{
  string_eq, ◌≡◌, refl, ◌↔◌, String, Option, none, some, List, [], ◌∷◌, ◌++◌, All, In, contains_iff,
  append-eq-nil, arith,
}
use paper_to_pipeline.Base.Dict.{Dict, get}
use paper_to_pipeline.Base.Json.{Json}
use paper_to_pipeline.Base.Numbers.{Arith}
use paper_to_pipeline.Constraints.Ranges.{Python}
use paper_to_pipeline.Constraints.Knobs.{Knob, RangeError, range_error}
use paper_to_pipeline.Constraints.Header.{
  Reader, parse_header, macros, stray_errors, illegal_errors, knob_errors, all_errors, knob_values,
}

stray_iff :
    {A : Type 0} (knobs : List (Knob A)) (values : Dict (Json A))
    → (stray_errors knobs values ≡ []) ↔ All (λ e. In e.0 (macros knobs)) values
unfolding stray_errors
stray_iff knobs [] = (λ _. tt, λ _. refl)
stray_iff knobs ((macro, v) ∷ values) =
    ground (arith, contains_iff (macros knobs) macro, stray_iff knobs values)

illegal_iff :
    {A : Type 0} (knob : Knob A) (o : Option (RangeError A))
    → (illegal_errors knob o ≡ []) ↔ (o ≡ none)
unfolding illegal_errors
illegal_iff knob none = ground arith
illegal_iff knob (some problem) = ground arith

module _ {A : Type 0} ⦃n : Arith A⦄ (python : Python A) where
  -- The header gives the knob a value, and it is a legal one.
  abbrev pub IsGiven : Dict (Json A) → Knob A → Type 0
  IsGiven values knob =
      (v : Json A) × (get knob.macro values ≡ some v) × (range_error python knob v ≡ none)

  knob_iff :
      (knob : Knob A) (found : Option (Json A))
      → (knob_errors python knob found ≡ [])
        ↔ ((v : Json A) × (found ≡ some v) × (range_error python knob v ≡ none))
  unfolding knob_errors
  knob_iff knob none = ground arith
  knob_iff knob (some v) =
      let clean = illegal_iff knob (range_error python knob v) in
      (
        λ h. (v, refl, clean.0 h),
        λ (w, e, legal). let same : w ≡ v = cc in clean.1 (rw same at legal),
      )

  all_errors_iff :
      (knobs : List (Knob A)) (values : Dict (Json A))
      → (all_errors python knobs values ≡ []) ↔ All (IsGiven values) knobs
  unfolding all_errors
  all_errors_iff [] values = (λ _. tt, λ _. refl)
  all_errors_iff (knob ∷ knobs) values =
      let parts =
        append-eq-nil (knob_errors python knob (get knob.macro values))
          (all_errors python knobs values) in
      let one = knob_iff knob (get knob.macro values) in
      let rest = all_errors_iff knobs values in
      (λ h. (one.0 (parts.0 h).0, rest.0 (parts.0 h).1), λ all. parts.1 (one.1 all.0, rest.1 all.1))

  -- A header is accepted without an error exactly when it reads without one, every macro that it
  -- defines is a knob's, and it gives every knob a value that is legal for the knob.
  pub knob_values-IsGiven :
      (reader : Reader A) (header : String) (knobs : List (Knob A))
      → ((knob_values python reader header knobs).1 ≡ []) ↔ (
          let (values, errors) = parse_header reader header in
          (errors ≡ []) × All (λ e. In e.0 (macros knobs)) values × All (IsGiven values) knobs)
  unfolding knob_values
  knob_values-IsGiven reader header knobs =
      let (values, errors) = parse_header reader header in
      ground (
        arith,
        append-eq-nil errors (stray_errors knobs values ++ all_errors python knobs values),
        append-eq-nil (stray_errors knobs values) (all_errors python knobs values),
        stray_iff knobs values,
        all_errors_iff knobs values,
      )

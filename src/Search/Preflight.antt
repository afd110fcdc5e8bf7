-- ===== src/Search/Preflight.antt =====
-- The preflight of a search (loop/dse.py, `preflight`; loop/constraints.py, `names_in`).
pub mod Costs
pub mod Passes
pub mod Added
pub mod Shown
use paper_to_pipeline.Base.{
  String, Bool, true, false, Option, none, some, List, [], ◌∷◌, ◌++◌, map, keep, contains, ◌==◌,
  string_eq, not, ◌&&◌, if◌then◌else◌,
}
use paper_to_pipeline.Base.Text.{append}
use paper_to_pipeline.Base.Dict.{Dict, get, has}
use paper_to_pipeline.Base.Json.{Json}
use paper_to_pipeline.Base.Numbers.{Arith}
use paper_to_pipeline.Constraints.Ranges.{Python}
use paper_to_pipeline.Constraints.Knobs.{Knob, Origin, feature, host, is_pinned, alternate_value}
use paper_to_pipeline.Constraints.Header.{Sides, set_side, default_values}
use paper_to_pipeline.Constraints.Storage.{
  Declared, Structure, Term, Spec, PortPlan, or_default, or_nonempty, feature_knobs, host_knobs,
  all_knobs,
}
use paper_to_pipeline.Search.Header.{Printer, host_macro, name_macros, params_header}

-- `build`, which gives no binary where it fails, the test of a binary that is not empty, and the
-- digits of its hash.
pub record Kit (S B : Type 0) : Type 0 where
  pub build : (header : String) → S → Option B × S
  pub has_bytes : B → Bool
  pub hash : B → String

-- The `Name` nodes of a formula's tree, and those of them that are called.
pub record Trees : Type 0 where
  pub read_names : String → List String
  pub called_names : String → List String

pub data KnobResult : Type 0 where
  pinned no_second_value does_not_build inert live : KnobResult

pub record KnobEntry (A : Type 0) : Type 0 where
  pub macro : String
  pub origin : Origin
  pub default : Json A
  pub tested : Option (Json A)
  pub costs_storage : Bool
  pub outcome : KnobResult

pub data BuildNote (A : Type 0) : Type 0 where
  default_does_not_build : BuildNote A
  builds_differ : BuildNote A
  no_value_to_test : (macro : String) → BuildNote A
  value_does_not_build : (macro : String) (value : Json A) → BuildNote A
  nothing_reads : (macro : String) (value default : Json A) (costs_storage : Bool) → BuildNote A

pub record BuildReport (A : Type 0) : Type 0 where
  pub default_build : Option String
  pub reproducible : Bool
  pub knobs : List (KnobEntry A)
  pub blocking : List (BuildNote A)
  pub warnings : List (BuildNote A)

abbrev pub same_build : (a b : Option String) → Bool
same_build (some a) (some b) = a == b
same_build none none = true
same_build _ _ = false

module _ {S B : Type 0} (kit : Kit S B) where
  abbrev pub digest : Option B → Option String
  digest none = none
  digest (some binary) = if kit.has_bytes binary then some (kit.hash binary) else none

unfoldable pub names_in : Trees → String → List String
unfolding contains
names_in trees formula =
    keep (λ n. not (contains (trees.called_names formula) n)) (trees.read_names formula)

module _ {A : Type 0} ⦃n : Arith A⦄ (python : Python A) (printer : Printer A) (trees : Trees) where
  abbrev pub structure_macros : Structure A → List String
  structure_macros s =
      let formula = or_default "" s.size_formula in
      if formula == ""
      then []
      else map (λ x. append "SR_" (printer.upper x)) (names_in trees formula)

  -- `host_names[n] for n in ... if n in host_names`
  unfoldable pub known_macros : Dict String → List String → List String
  known_macros macros [] = []
  known_macros macros (x ∷ xs) = elim (get x macros) [
    | none ↦ known_macros macros xs
    | some macro ↦ macro ∷ known_macros macros xs
  ]

  unfoldable pub flatten : {X : Type 0} → (X → List String) → List X → List String
  flatten f [] = []
  flatten f (x ∷ xs) = f x ++ flatten f xs

  -- `costed`
  unfoldable pub costed : Spec A → PortPlan A → List String
  unfolding names_in known_macros flatten name_macros
  costed spec plan =
      let macros = name_macros python printer (host_macro python printer) plan.host_knobs [] in
      flatten structure_macros spec.state
      ++ flatten (λ t. known_macros macros (names_in trees (or_default "0" t.formula))) plan.terms

module _ {S A B : Type 0} ⦃n : Arith A⦄ (python : Python A) (printer : Printer A) (trees : Trees)
    (kit : Kit S B) (spec : Spec A) (plan : PortPlan A) where
  -- The header that gives one knob another value.
  unfoldable pub variant_header : Knob A → Json A → String
  variant_header knob value =
      let (features, hosts) =
        set_side knob value (default_values (all_knobs printer.upper spec plan)) in
      params_header python printer spec plan features hosts []

  abbrev pub is_costed : Knob A → Bool
  is_costed knob = contains (costed python printer trees spec plan) knob.macro

  abbrev pub add_knob :
      Knob A
      → Option (Json A)
      → KnobResult
      → (blocking warnings : List (BuildNote A)) → BuildReport A
      → BuildReport A
  add_knob knob tested outcome blocking warnings report = record report {
    knobs =
        report.knobs
        ++ record {
          macro = knob.macro;
          origin = knob.origin;
          default = knob.default;
          tested = tested;
          costs_storage = is_costed knob;
          outcome = outcome;
        }
          ∷ [];
    blocking = report.blocking ++ blocking;
    warnings = report.warnings ++ warnings;
  }

  -- From the variant's digest on.
  unfoldable pub judge_variant :
      (first : Option String)
      → Knob A
      → Json A
      → (variant : Option String) → BuildReport A
      → BuildReport A
  judge_variant first knob value none report =
      add_knob knob (some value) does_not_build [] (value_does_not_build knob.macro value ∷ [])
        report
  judge_variant first knob value (some variant) report =
      let note = nothing_reads knob.macro value knob.default (is_costed knob) in
      if same_build (some variant) first
      then (if is_costed knob
          then add_knob knob (some value) inert (note ∷ []) [] report
          else add_knob knob (some value) inert [] (note ∷ []) report)
      else add_knob knob (some value) live [] [] report

  -- The body of the loop over the knobs, at the second value.
  unfoldable pub check_knob :
      (first : Option String) → Knob A → Option (Json A) → BuildReport A → S → BuildReport A × S
  unfolding judge_variant is_pinned
  check_knob first knob none report s =
      if is_pinned python knob
      then (add_knob knob none pinned [] [] report, s)
      else (add_knob knob none no_second_value [] (no_value_to_test knob.macro ∷ []) report, s)
  check_knob first knob (some value) report s =
      let (binary, s') = kit.build (variant_header knob value) s in
      (judge_variant first knob value (digest kit binary) report, s')

  unfoldable pub check_knobs :
      (first : Option String) → List (Knob A) → BuildReport A → S → BuildReport A × S
  unfolding check_knob alternate_value
  check_knobs first [] report s = (report, s)
  check_knobs first (knob ∷ knobs) report s =
      let (report', s') = check_knob first knob (alternate_value python knob) report s in
      check_knobs first knobs report' s'

  -- From the two builds of the default header on.
  unfoldable pub check_default : (first second : Option String) → S → BuildReport A × S
  unfolding check_knobs
  check_default none second s = (
    record {
      default_build = none;
      reproducible = false;
      knobs = [];
      blocking = default_does_not_build ∷ [];
      warnings = [];
    },
    s,
  )
  check_default (some first) second s =
      if same_build (some first) second
      then check_knobs (some first) (all_knobs printer.upper spec plan)
          (record {
            default_build = some first;
            reproducible = true;
            knobs = [];
            blocking = [];
            warnings = [];
          })
          s
      else (
        record {
          default_build = some first;
          reproducible = false;
          knobs = [];
          blocking = builds_differ ∷ [];
          warnings = [];
        },
        s,
      )

  unfoldable pub preflight : (header : String) → S → BuildReport A × S
  unfolding check_default
  preflight header s =
      let (binary, s1) = kit.build header s in
      let (again, s2) = kit.build header s1 in
      check_default (digest kit binary) (digest kit again) s2

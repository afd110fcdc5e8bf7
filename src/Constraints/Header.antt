-- ===== src/Constraints/Header.antt =====
-- The header of a candidate (loop/constraints.py, `_literal`, `parse_header`, `knob_values`,
-- `default_values`).
pub mod Legal
mod Tests
use paper_to_pipeline.Base.{
  String, Bool, true, false, Option, none, some, List, [], ◌∷◌, ◌++◌, map, ◌||◌, ◌&&◌, not,
  contains, ◌==◌, string_eq, if◌then◌else◌, eqb,
}
use paper_to_pipeline.Base.Text.{starts_with, strip, has_part}
use paper_to_pipeline.Base.Dict.{Dict, get, has, put}
use paper_to_pipeline.Base.Json.{Json, bool, num}
use paper_to_pipeline.Base.Numbers.{Arith}
use paper_to_pipeline.Constraints.Ranges.{Python}
use paper_to_pipeline.Constraints.Knobs.{Origin, feature, host, Knob, RangeError, range_error}

-- `re` at the three patterns of the header, and the readers of numbers: `int(s, 16)`, `int(s, 10)`
-- and `float(s)` on texts that matched, the last after `s.rstrip("fF")`.
pub record Reader (A : Type 0) : Type 0 where
  pub split_lines : String → List String
  pub match_define : String → Option (String × String)
  pub match_int : String → Bool
  pub match_float : String → Bool
  pub read_hex : String → A
  pub read_decimal : String → A
  pub read_float : String → A
  pub lower : String → String

pub data HeaderError (A : Type 0) : Type 0 where
  defined_twice : (macro : String) → HeaderError A
  not_literal : (macro body : String) → HeaderError A
  not_a_knob : (macro : String) → HeaderError A
  missing : (macro : String) → HeaderError A
  illegal : (macro : String) → RangeError A → (range : String) → HeaderError A

module _ {A : Type 0} (reader : Reader A) where
  -- `none` is the `ValueError`.
  unfoldable pub literal : String → Option (Json A)
  unfolding has_part
  literal body =
      let text = strip body in
      if (text == "true") || (text == "false")
      then some (bool (text == "true"))
      else if reader.match_int text
      then some (
          num (
            if has_part "x" (reader.lower text)
            then reader.read_hex text
            else reader.read_decimal text))
      else if reader.match_float text
      then some (num (reader.read_float text))
      else none

  -- A line's definition of a macro of ours.
  unfoldable pub read_define :
      (macro body : String)
      → Dict (Json A) × List (HeaderError A)
      → Dict (Json A) × List (HeaderError A)
  unfolding literal
  read_define macro body (values, errors) =
      if not (starts_with "SR_" macro || starts_with "HOST_" macro)
      then (values, errors)
      else if has macro values
      then (values, errors ++ defined_twice macro ∷ [])
      else elim (literal body) [
        | none ↦ (values, errors ++ not_literal macro body ∷ [])
        | some value ↦ (put macro value values, errors)
      ]

  unfoldable pub read_lines :
      List String → Dict (Json A) × List (HeaderError A) → Dict (Json A) × List (HeaderError A)
  unfolding read_define
  read_lines [] found = found
  read_lines (line ∷ lines) found = elim (reader.match_define line) [
    | none ↦ read_lines lines found
    | some d ↦ read_lines lines (read_define d.0 d.1 found)
  ]

  unfoldable pub parse_header : String → Dict (Json A) × List (HeaderError A)
  unfolding read_lines
  parse_header text = read_lines (reader.split_lines text) ([], [])

-- The values by the knobs' names, feature and host.
abbrev pub Sides : Type 0 → Type 0
Sides B = Dict (Json B) × Dict (Json B)

module _ {A : Type 0} where
  abbrev pub macros : List (Knob A) → List String
  macros knobs = map (λ k. k.macro) knobs

  -- The macros of the header that are no knob's.
  unfoldable pub stray_errors : List (Knob A) → Dict (Json A) → List (HeaderError A)
  unfolding contains
  stray_errors knobs [] = []
  stray_errors knobs ((macro, _) ∷ values) =
      if not (contains (macros knobs) macro)
      then not_a_knob macro ∷ stray_errors knobs values
      else stray_errors knobs values

  abbrev pub set_side : Knob A → Json A → Sides A → Sides A
  set_side knob value (features, hosts) = elim knob.origin [
    | feature ↦ (put knob.name value features, hosts)
    | host ↦ (features, put knob.name value hosts)
  ]

  -- `if problem:`
  unfoldable pub illegal_errors : Knob A → Option (RangeError A) → List (HeaderError A)
  illegal_errors knob none = []
  illegal_errors knob (some problem) = illegal knob.macro problem knob.range ∷ []

module _ {A : Type 0} ⦃n : Arith A⦄ (python : Python A) where
  -- The errors of one knob, at the value that the header gives it.
  unfoldable pub knob_errors : Knob A → Option (Json A) → List (HeaderError A)
  unfolding illegal_errors range_error
  knob_errors knob none = missing knob.macro ∷ []
  knob_errors knob (some value) = illegal_errors knob (range_error python knob value)

  unfoldable pub all_errors : List (Knob A) → Dict (Json A) → List (HeaderError A)
  unfolding knob_errors
  all_errors [] values = []
  all_errors (knob ∷ knobs) values =
      knob_errors knob (get knob.macro values) ++ all_errors knobs values

module _ {A : Type 0} where
  unfoldable pub sides_of : List (Knob A) → Dict (Json A) → Sides A → Sides A
  sides_of [] values found = found
  sides_of (knob ∷ knobs) values found = elim (get knob.macro values) [
    | none ↦ sides_of knobs values found
    | some value ↦ sides_of knobs values (set_side knob value found)
  ]

  unfoldable pub defaults_from : List (Knob A) → Sides A → Sides A
  defaults_from [] found = found
  defaults_from (knob ∷ knobs) found = defaults_from knobs (set_side knob knob.default found)

  -- The knobs' defaults by name, feature and host.
  unfoldable pub default_values : List (Knob A) → Sides A
  unfolding defaults_from
  default_values knobs = defaults_from knobs ([], [])

module _ {A : Type 0} ⦃n : Arith A⦄ (python : Python A) (reader : Reader A) where
  unfoldable pub knob_values : String → List (Knob A) → Sides A × List (HeaderError A)
  unfolding parse_header stray_errors all_errors sides_of
  knob_values header knobs =
      let (values, errors) = parse_header reader header in
      (
        sides_of knobs values ([], []),
        errors ++ (stray_errors knobs values ++ all_errors python knobs values),
      )

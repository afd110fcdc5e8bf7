-- ===== src/Search/Header.antt =====
-- The parameters' header (loop/dse.py, `_enum_choices`, `_knob_line`, `_render_value`,
-- `params_header`; loop/constraints.py, `Constraint.describe`).
use paper_to_pipeline.Base.{
  ℕ, suc, String, Option, none, some, List, [], ◌∷◌, ◌++◌, map, ◌==◌, string_eq, if◌then◌else◌,
  length,
}
use paper_to_pipeline.Base.Text.{append, strip, starts_with, drop_chars, char_count}
use paper_to_pipeline.Base.Dict.{Dict, get, put}
use paper_to_pipeline.Base.Json.{Json, num}
use paper_to_pipeline.Base.Numbers.{Arith}
use paper_to_pipeline.Runner.Plan.{Comparison, less, less_equal, greater, greater_equal, equal}
use paper_to_pipeline.Constraints.Ranges.{Python}
use paper_to_pipeline.Constraints.Storage.{
  Declared, Structure, Term, Spec, PortPlan, or_default, or_nonempty,
}
use paper_to_pipeline.Constraints.Static.{Constraint}

-- `s.upper()`, `f"{x:g}"`, `int(val) if str(val).lstrip("-").isdigit()`, and a formula printed by
-- `ast` with its names replaced.
pub record Printer (A : Type 0) : Type 0 where
  pub upper : String → String
  pub general : A → String
  pub digits : Json A → Option A
  pub renamed : String → Dict String → String

-- `"\n".join(lines) + "\n"`
unfoldable pub unlines : List String → String
unlines [] = ""
unlines (line ∷ lines) = append line (append "\n" (unlines lines))

-- `sep.join(parts)`
unfoldable pub join : (separator : String) → List String → String
join separator [] = ""
join separator (part ∷ []) = part
join separator (part ∷ next ∷ parts) =
    append part (append separator (join separator (next ∷ parts)))

-- `_COMPARE`
abbrev pub comparison_text : Comparison → String
comparison_text less = "<"
comparison_text less_equal = "<="
comparison_text greater = ">"
comparison_text greater_equal = ">="
comparison_text equal = "=="

abbrev pub knob_line : (macro cval comment : String) → String
knob_line macro cval comment =
    append "#define " (append macro (append " " (append cval (append "  // " comment))))

-- `choices.index(value)`, from `i` on
unfoldable pub index_from : (i : ℕ) (value : String) → List String → Option ℕ
index_from i value [] = none
index_from i value (c ∷ cs) =
    let rest = index_from (suc i) value cs in if c == value then some i else rest

module _ {A : Type 0} (python : Python A) where
  unfoldable pub enum_choices : String → List String
  enum_choices range =
      let body =
        if starts_with "choices:" (python.lower range)
        then drop_chars (char_count "choices:") range
        else range in
      map strip (python.split_bar body)

  abbrev pub digit_text : ℕ → (Arith A) → String
  digit_text i n = python.text_of (num (n.from_count i))

module _ {A : Type 0} ⦃n : Arith A⦄ (python : Python A) (printer : Printer A) where
  -- `_render_value`, at what `choices.index` gives
  unfoldable pub choice_literal : Option ℕ → Json A → String
  choice_literal (some i) value = digit_text python i n
  choice_literal none value = elim (printer.digits value) [
    | some i ↦ python.text_of (num i)
    | none ↦ digit_text python 0 n
  ]

  -- `f"{i}={c}"` for each choice, from `i` on
  unfoldable pub legend : (i : ℕ) → List String → List String
  legend i [] = []
  legend i (c ∷ cs) = append (digit_text python i n) (append "=" c) ∷ legend (suc i) cs

  -- The literal, and the comment on its range.
  unfoldable pub render_value : (type range : String) → Json A → String × String
  unfolding choice_literal legend enum_choices index_from join
  render_value type range value =
      if type == "bool"
      then (python.lower (python.text_of value), range)
      else if type == "enum"
      then (let choices = enum_choices python range in
          (
            choice_literal (index_from 0 (python.text_of value) choices) value,
            append "index 0-" (
                append
                  (python.text_of (num (n.sub (n.from_count (length choices)) (n.from_count 1))))
                  (append " (" (append (join " | " (legend 0 choices)) ")"))),
          ))
      else (python.text_of value, range)

  -- `overrides.get(name, default)`
  abbrev pub overridden : Dict (Json A) → String → Json A → Json A
  overridden overrides name default = elim (get name overrides) [
    | none ↦ default
    | some value ↦ value
  ]

  abbrev pub feature_macro : Declared A → String
  feature_macro p = append "SR_" (printer.upper p.name)

  abbrev pub host_macro : Declared A → String
  host_macro k = or_nonempty (append "HOST_" (printer.upper k.name)) k.macro

  abbrev pub feature_line : Dict (Json A) → Declared A → String
  feature_line overrides p =
      let (cval, comment) =
        render_value (or_default "" p.type) (or_default "" p.range)
          (overridden overrides p.name p.default) in
      knob_line (feature_macro p) cval (append "range: " comment)

  abbrev pub host_line : Dict (Json A) → Declared A → String
  host_line overrides k =
      knob_line (host_macro k) (python.text_of (overridden overrides k.name k.default)) (
        append "range: "
          (append (or_default "" k.range) (append "; sets " (or_default k.name k.host_symbol))))

  -- `names`
  unfoldable pub name_macros :
      (macro : Declared A → String) → List (Declared A) → Dict String → Dict String
  name_macros macro [] names = names
  name_macros macro (p ∷ ps) names = name_macros macro ps (put p.name (macro p) names)

  abbrev pub structure_line : Dict String → Structure A → String
  structure_line names s = append "//   " (
      append s.name (
        append ": " (
          if or_default "" s.size_formula == ""
          then elim s.size_bits [ none ↦ "None" | some bits ↦ python.text_of (num bits) ]
          else printer.renamed (or_default "" s.size_formula) names)))

  abbrev pub term_line : Dict String → Term → String
  term_line names t =
      append "//   host "
        (append t.structure (append ": " (printer.renamed (or_default "0" t.formula) names)))

  -- `c.describe()`
  abbrev pub describe : Constraint A → String
  describe c = append c.metric (
      append " " (
        append (comparison_text c.comparison) (
          append " " (
            append (printer.general c.allowance)
              (if c.name == "" then "" else append " (" (append c.name ")"))))))

  abbrev pub constraint_line : Constraint A → String
  constraint_line c =
      append "// constraint: " (append (describe c) ". A candidate that breaks it is not built.")

  -- `if host:` and `if model:`
  abbrev pub under_title : (title : String) → List String → List String
  under_title title [] = []
  under_title title (line ∷ lines) = title ∷ line ∷ lines

  unfoldable pub header_lines :
      Spec A
      → PortPlan A
      → (overrides host_overrides : Dict (Json A)) → List (Constraint A)
      → List String
  unfolding render_value name_macros
  header_lines spec plan overrides host_overrides constraints =
      let names =
        name_macros host_macro plan.host_knobs (name_macros feature_macro spec.parameters []) in
      ("// generated from the feature spec and the port plan; DSE mutates values only" ∷ [])
      ++ (map constraint_line constraints
          ++ (("#pragma once" ∷ [])
              ++ (map (feature_line overrides) spec.parameters
                  ++ (under_title
                        "// host knobs: the host's own structures, at the clean tree's values by default"
                        (map (host_line host_overrides) plan.host_knobs)
                      ++ under_title "// storage_bits is the sum of these, in bits:" (
                          map (structure_line names) spec.state
                          ++ map (term_line names) plan.terms)))))

  unfoldable pub params_header :
      Spec A
      → PortPlan A
      → (overrides host_overrides : Dict (Json A)) → List (Constraint A)
      → String
  unfolding header_lines unlines
  params_header spec plan overrides host_overrides constraints =
      unlines (header_lines spec plan overrides host_overrides constraints)

-- ===== src/Constraints/Storage.antt =====
-- What a candidate's structures cost (loop/constraints.py, `feature_knobs`, `host_knobs`,
-- `feature_storage`, `host_storage`, `storage_bits`), over the fields of a spec and a port plan that
-- are read.
use paper_to_pipeline.Base.{
  String, Option, none, some, List, [], ◌∷◌, ◌++◌, map, ◌==◌, string_eq, if◌then◌else◌,
}
use paper_to_pipeline.Base.Text.{append}
use paper_to_pipeline.Base.Dict.{Dict, put, update}
use paper_to_pipeline.Base.Json.{Json}
use paper_to_pipeline.Base.Numbers.{Arith, zero_num}
use paper_to_pipeline.Constraints.Knobs.{Knob, feature, host}
use paper_to_pipeline.Constraints.Formulas.{Expr, Result, gives, and_then, Operators, evaluate}

-- An entry of `parameters` or of `host_knobs`; a parameter's macro and symbol are not read.
pub record Declared (A : Type 0) : Type 0 where
  pub macro : Option String
  pub name : String
  pub type : Option String
  pub default : Json A
  pub range : Option String
  pub host_symbol : Option String

-- An entry of the spec's `state`.
pub record Structure (A : Type 0) : Type 0 where
  pub name : String
  pub size_formula : Option String
  pub size_bits : Option A

-- An entry of `host_storage.terms`.
pub record Term : Type 0 where
  pub structure : String
  pub formula : Option String

pub record Spec (A : Type 0) : Type 0 where
  pub parameters : List (Declared A)
  pub state : List (Structure A)

pub record PortPlan (A : Type 0) : Type 0 where
  pub host_knobs : List (Declared A)
  pub terms : List Term

-- `d.get(key, default)`
abbrev pub or_default : String → Option String → String
or_default default none = default
or_default default (some s) = s

-- `d.get("macro") or ...`
abbrev pub or_nonempty : String → Option String → String
or_nonempty default none = default
or_nonempty default (some s) = if s == "" then default else s

module _ {A : Type 0} (upper : String → String) where
  unfoldable pub feature_knobs : Spec A → List (Knob A)
  feature_knobs spec =
      map
        (λ p. record {
          macro = append "SR_" (upper p.name);
          name = p.name;
          type = or_default "int" p.type;
          default = p.default;
          range = or_default "" p.range;
          origin = feature;
        })
        spec.parameters

  unfoldable pub host_knobs : PortPlan A → List (Knob A)
  host_knobs plan =
      map
        (λ k. record {
          macro = or_nonempty (append "HOST_" (upper k.name)) k.macro;
          name = k.name;
          type = or_default "int" k.type;
          default = k.default;
          range = or_default "" k.range;
          origin = host;
        })
        plan.host_knobs

  unfoldable pub all_knobs : Spec A → PortPlan A → List (Knob A)
  unfolding feature_knobs host_knobs
  all_knobs spec plan = feature_knobs spec ++ host_knobs plan

module _ {A : Type 0} ⦃n : Arith A⦄ where
  -- `s.get("size_bits") or 0`
  abbrev pub declared_bits : Option A → A
  declared_bits none = zero_num
  declared_bits (some bits) = bits

  -- `sum(breakdown.values())`, from what is summed already
  unfoldable pub sum_values : A → Dict A → A
  sum_values total [] = total
  sum_values total ((_, bits) ∷ d) = sum_values (n.add total bits) d

module _ {A : Type 0} ⦃n : Arith A⦄ (python : Operators A) (parse : String → Result (Expr A)) where
  unfoldable pub structure_bits : Structure A → Dict (Json A) → Result A
  unfolding evaluate
  structure_bits s values =
      let formula = or_default "" s.size_formula in
      if formula == ""
      then gives (declared_bits s.size_bits)
      else evaluate python parse formula values

  unfoldable pub feature_storage :
      List (Structure A) → Dict (Json A) → (out : Dict A) → Result (Dict A)
  unfolding structure_bits and_then
  feature_storage [] values out = gives out
  feature_storage (s ∷ state) values out =
      and_then (structure_bits s values)
        λ bits. feature_storage state values (put (append "feature:" s.name) bits out)

  unfoldable pub host_storage : List Term → Dict (Json A) → (out : Dict A) → Result (Dict A)
  unfolding evaluate and_then
  host_storage [] values out = gives out
  host_storage (t ∷ terms) values out =
      and_then (evaluate python parse (or_default "0" t.formula) values)
        λ bits. host_storage terms values (put (append "host:" t.structure) bits out)

  -- The total, and the breakdown.
  unfoldable pub storage_bits :
      Spec A → PortPlan A → (features hosts : Dict (Json A)) → Result (A × Dict A)
  unfolding feature_storage host_storage sum_values
  storage_bits spec plan features hosts = and_then (feature_storage spec.state features []) λ f.
      and_then (host_storage plan.terms hosts [])
        λ h. let breakdown = update f h in gives (sum_values zero_num breakdown, breakdown)

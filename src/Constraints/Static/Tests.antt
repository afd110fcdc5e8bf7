-- ===== src/Constraints/Static/Tests.antt =====
-- A candidate whose one structure grows with its knob, against an allowance.
use paper_to_pipeline.Base.{◌≡◌, refl, ◌↔◌, String, true, false, none, some, [], ◌∷◌, All, ◌*◌}
use paper_to_pipeline.Base.Int.{ℤ, pos, pos_part, div_ℤ, int_arith}
use paper_to_pipeline.Base.Text.{rstrip, lstrip}
use paper_to_pipeline.Base.Json.{num}
use paper_to_pipeline.Runner.Plan.{less_equal}
use paper_to_pipeline.Constraints.Ranges.{Python}
use paper_to_pipeline.Constraints.Header.{Reader, knob_values}
use paper_to_pipeline.Constraints.Formulas.{
  Expr, variable, constant, binary, mult_op, Result, gives, Operators,
}
use paper_to_pipeline.Constraints.Storage.{Spec, PortPlan, all_knobs, storage_bits}
use paper_to_pipeline.Constraints.Static.{Constraint, is_static, check_static}
use paper_to_pipeline.Constraints.Static.Meets.{Meets, check_static-Meets}

abbrev python : Python ℤ
python = record {
  is_int = λ x. true;
  is_integer = λ x. true;
  to_int = λ x. x;
  mul = λ x y. pos (pos_part x * pos_part y);
  floor_div = div_ℤ;
  bit_and = λ x y. pos 0;
  text_of = λ v. "";
  read_float = λ s. some (pos 1);
  lower = λ s. s;
  split_bar = λ s. [];
  match_choices = λ s. none;
  match_interval = λ s. none;
}

abbrev reader : Reader ℤ
reader = record {
  split_lines = λ s. s ∷ [];
  match_define = λ s. some ("SR_SIZE", "4");
  match_int = λ s. true;
  match_float = λ s. true;
  read_hex = λ s. pos 4;
  read_decimal = λ s. pos 4;
  read_float = λ s. pos 4;
  lower = λ s. s;
}

abbrev operators : Operators ℤ
operators = record {
  is_float = λ x. false;
  is_integer = λ x. true;
  to_int = λ x. x;
  mul = λ x y. pos (pos_part x * pos_part y);
  divide = λ op x y. none;
  power = λ x y. none;
  shift = λ op x y. x;
  log2 = λ x. x;
  apply = λ f xs. pos 0;
}

-- `size * 16`
abbrev parse : String → Result (Expr ℤ)
parse s = gives (binary mult_op (variable "size") (constant (pos 16)))

abbrev spec : Spec ℤ
spec = record {
  parameters =
      record {
        macro = none;
        name = "size";
        type = some "int";
        default = num (pos 2);
        range = none;
        host_symbol = none;
      }
      ∷ [];
  state = record { name = "table"; size_formula = some "size * 16"; size_bits = none } ∷ [];
}

abbrev plan : PortPlan ℤ
plan = record { host_knobs = []; terms = [] }

abbrev track : Constraint ℤ
track = record {
  metric = "storage_bits";
  comparison = less_equal;
  allowance = pos 64;
  name = "track";
}

abbrev upper : String → String
upper s = "SIZE"

check_static-run :
    (check_static python reader operators parse upper "#define SR_SIZE 4" spec plan
      (track ∷ [])).passed
    ≡ true
unfolding check_static rstrip lstrip knob_values all_knobs storage_bits
check_static-run = refl

check_static-Meets_example :
    ((check_static python reader operators parse upper "#define SR_SIZE 4" spec plan
        (track ∷ [])).passed
      ≡ true)
    ↔ (let ((features, hosts), errors) =
          knob_values python reader "#define SR_SIZE 4" (all_knobs upper spec plan) in
        (errors ≡ [])
        × All
            (λ c.
              is_static c ≡ true → Meets (storage_bits operators parse spec plan features hosts) c)
            (track ∷ []))
check_static-Meets_example =
    check_static-Meets python reader operators parse upper "#define SR_SIZE 4" spec plan
      (track ∷ [])

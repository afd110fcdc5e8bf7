-- ===== src/Constraints/Header/Tests.antt =====
-- A small header and its knob, and the theorems on candidates at them.
use paper_to_pipeline.Base.{
  ◌≡◌, refl, ◌↔◌, String, true, none, some, [], ◌∷◌, All, In, arith, ◌==◌, string_eq, if◌then◌else◌,
  ◌*◌,
}
use paper_to_pipeline.Base.Text.{lstrip, rstrip}
use paper_to_pipeline.Base.Int.{ℤ, pos, pos_part, div_ℤ, int_arith}
use paper_to_pipeline.Base.Json.{Json, num, str}
use paper_to_pipeline.Constraints.Ranges.{Python}
use paper_to_pipeline.Constraints.Knobs.{Knob, feature, range_error, alternate_value}
use paper_to_pipeline.Constraints.Knobs.Alternate.{CountLaws, alternate_value_legal}
use paper_to_pipeline.Constraints.Header.{Reader, parse_header, macros, knob_values}
use paper_to_pipeline.Constraints.Header.Legal.{IsGiven, knob_values-IsGiven}

abbrev text_value : Json ℤ → String
text_value (str s) = s
text_value _ = ""

abbrev python : Python ℤ
python = record {
  is_int = λ x. true;
  is_integer = λ x. true;
  to_int = λ x. x;
  mul = λ x y. pos (pos_part x * pos_part y);
  floor_div = div_ℤ;
  bit_and = λ x y. pos 0;
  text_of = text_value;
  read_float = λ s. some (if s == "1" then pos 1 else pos 8);
  lower = λ s. s;
  split_bar = λ s. [];
  match_choices = λ s. none;
  match_interval = λ s. some ("1", "8", "");
}

abbrev reader : Reader ℤ
reader = record {
  split_lines = λ s. s ∷ [];
  match_define = λ s. some ("SR_SIZE", "4");
  match_int = λ s. true;
  match_float = λ s. true;
  read_hex = λ s. pos 4;
  read_decimal = λ s. pos 4;
  read_float = λ s. pos 4;
  lower = λ s. s;
}

abbrev size : Knob ℤ
size = record {
  macro = "SR_SIZE";
  name = "size";
  type = "int";
  default = num (pos 4);
  range = "[1, 8]";
  origin = feature;
}

counts : CountLaws ℤ int_arith python
counts = record {
  count_is_int = λ k. refl;
  count_lt = λ j k h. ground arith;
  text_of_text = λ s. refl;
}

alternate_value-run : alternate_value python size ≡ some (num (pos 3))
unfolding alternate_value rstrip lstrip
alternate_value-run = refl

knob_values-run :
    knob_values python reader "#define SR_SIZE 4" (size ∷ [])
    ≡ (((("size", num (pos 4)) ∷ [], []), []))
unfolding knob_values rstrip lstrip
knob_values-run = refl

alternate_value_legal_example : range_error python size (num (pos 3)) ≡ none
unfolding alternate_value rstrip lstrip
alternate_value_legal_example = alternate_value_legal python counts size (num (pos 3)) refl

knob_values-IsSet_example : ((knob_values python reader "#define SR_SIZE 4" (size ∷ [])).1 ≡ []) ↔ (
    let (values, errors) = parse_header reader "#define SR_SIZE 4" in
    (errors ≡ [])
    × All (λ e. In e.0 (macros (size ∷ []))) values
    × All (IsGiven python values) (size ∷ []))
knob_values-IsSet_example = knob_values-IsGiven python reader "#define SR_SIZE 4" (size ∷ [])

-- ===== src/Constraints/Ranges.antt =====
-- The range of a parameter (loop/spec_checks.py, `parse_range`) and what Python gives to read and
-- to compute the values in it.
use paper_to_pipeline.Base.{String, Bool, Option, none, some, List, map, keep, not, ◌==◌, string_eq}
use paper_to_pipeline.Base.Text.{strip}
use paper_to_pipeline.Base.Json.{Json}

-- Python's built-in operations on numbers and texts that the knobs use: `isinstance(x, int)`,
-- `float(x).is_integer()`, `int(x)`, `x * y`, `x // y`, `x & y`, `str(v)`, `float(s)`, `s.lower()`,
-- `s.split("|")`, and `re.match` with the groups that are read, for the pattern of each name.
pub record Python (A : Type 0) : Type 0 where
  pub is_int : A → Bool
  pub is_integer : A → Bool
  pub to_int : A → A
  pub mul : A → A → A
  pub floor_div : A → A → A
  pub bit_and : A → A → A
  pub text_of : Json A → String
  pub read_float : String → Option A
  pub lower : String → String
  pub split_bar : String → List String
  pub match_choices : String → Option String
  pub match_interval : String → Option (String × String × String)

pub data Range (A : Type 0) : Type 0 where
  choices : List String → Range A
  interval : (lo hi : A) (mods : String) → Range A

module _ {A : Type 0} (python : Python A) where
  -- `[c.strip() for c in m.group(1).split("|") if c.strip()]`
  unfoldable pub choice_list : String → List String
  choice_list body = map strip (keep (λ c. not (strip c == "")) (python.split_bar body))

  -- `except ValueError: return None`
  unfoldable pub make_interval : (lo hi : Option A) (mods : String) → Option (Range A)
  make_interval (some lo) (some hi) mods = some (interval lo hi mods)
  make_interval _ _ mods = none

  unfoldable pub parse_interval : Option (String × String × String) → Option (Range A)
  unfolding make_interval
  parse_interval none = none
  parse_interval (some (lo, hi, mods)) =
      make_interval (python.read_float lo) (python.read_float hi) (python.lower (strip mods))

  unfoldable pub parse_range : String → Option (Range A)
  unfolding choice_list parse_interval
  parse_range spec_range =
      let text = strip spec_range in
      elim (python.match_choices text) [
        | some body ↦ some (choices (choice_list body))
        | none ↦ parse_interval (python.match_interval text)
      ]
